-- ===== src/Opt/ArcElim/Positions.antt =====
-- The positions that arc_elim.cpp collects in its first step are those of retains and releases.
use tinyswift.Prelude.{
  ℕ, suc, ◌+◌, true, ◌||◌, List, [], ◌∷◌, ℤ, some, lookup_id, get_elem?, All, All-append, ◌≡◌, ap,
  arith, Bool-cases, inl, inr, id_eq,
}
use tinyswift.Sil.{Instruction, BasicBlock}
use tinyswift.Opt.ArcElim.Collect.{
  ArcInst, Position, position, Groups, push_group, Arcs, is_retain, is_release, collect_inst,
  collect_insts, collect_blocks, no_arcs, arcs_of,
}

-- A retain or a release of a value.
abbrev pub IsArc : Instruction → Type 0
IsArc i = (is_retain i || is_release i) ≡ true

-- The position is that of a retain or a release of the function.
abbrev pub IsArcAt : List BasicBlock → Position → Type 0
IsArcAt blocks p =
    (bb : BasicBlock) × (i : Instruction) × (get_elem? blocks p.0 ≡ some bb)
    × (get_elem? bb.insts p.1 ≡ some i)
    × IsArc i

abbrev pub AllArcs : List BasicBlock → List ArcInst → Type 0
AllArcs blocks group = All (λ a. IsArcAt blocks (position a)) group

abbrev pub AllGroups : List BasicBlock → Groups → Type 0
AllGroups blocks groups = All (λ (g : ℤ × List ArcInst). AllArcs blocks g.1) groups

module _ (blocks : List BasicBlock) where
  push_group-AllGroups :
      (id : ℤ) (a : ArcInst) (groups : Groups)
      → IsArcAt blocks (position a)
      → AllGroups blocks groups
      → AllGroups blocks (push_group id a groups)
  unfolding push_group
  push_group-AllGroups id a [] ha h = ((ha, tt), tt)
  push_group-AllGroups id a ((j, group) ∷ rest) ha h = elim (Bool-cases (id_eq id j)) [
    | inl e ↦ rw e (All-append (λ b. IsArcAt blocks (position b)) group (a ∷ []) h.0 (ha, tt), h.1)
    | inr e ↦ rw e (h.0, push_group-AllGroups id a rest ha h.1)
  ]

  pub lookup-AllGroups :
      (id : ℤ) (groups : Groups) (group : List ArcInst)
      → AllGroups blocks groups
      → lookup_id id groups ≡ some group
      → AllArcs blocks group
  lookup-AllGroups id [] group h e = cc
  lookup-AllGroups id ((j, g) ∷ rest) group h e = elim (Bool-cases (id_eq id j)) [
    | inl t ↦ let q : g ≡ group = ground arith in rw q at h.0
    | inr f ↦ lookup-AllGroups id rest group h.1 (ground arith)
  ]

  pub record ArcsKnown (s : Arcs) : Type 0 where
    pub retains : AllGroups blocks s.retains
    pub releases : AllGroups blocks s.releases

  collect_inst-known :
      (a : ArcInst) (s : Arcs)
      → (IsArc a.inst → IsArcAt blocks (position a))
      → ArcsKnown s
      → ArcsKnown (collect_inst a s)
  unfolding collect_inst
  collect_inst-known a s at h = elim (Bool-cases (is_retain a.inst)) [
    | inl e ↦ rw e (record {
      retains = push_group-AllGroups a.inst.operand0.id a s.retains (at (ground arith)) h.retains;
      releases = h.releases;
    })
    | inr e ↦ elim (Bool-cases (is_release a.inst)) [
      | inl f ↦
          rw (e, f)
            (record {
              retains = h.retains;
              releases =
                  push_group-AllGroups a.inst.operand0.id a s.releases (at (ground arith))
                    h.releases;
            })
      | inr f ↦ rw (e, f) h
    ]
  ]

  collect_insts-known :
      (bi ii : ℕ) (bb : BasicBlock) (insts : List Instruction) (s : Arcs)
      → get_elem? blocks bi ≡ some bb
      → ((k j : ℕ) → j ≡ ii + k → get_elem? bb.insts j ≡ get_elem? insts k)
      → ArcsKnown s
      → ArcsKnown (collect_insts bi ii insts s)
  unfolding collect_insts
  collect_insts-known bi ii bb [] s e sub h = h
  collect_insts-known bi ii bb (i ∷ rest) s e sub h =
      let a : ArcInst = record { inst = i; block_index = bi; inst_index = ii } in
      collect_insts-known bi (suc ii) bb rest (collect_inst a s) e
        (λ k j p. sub (suc k) j (omega arith))
        (collect_inst-known a s (λ arc. (bb, i, e, sub 0 ii (omega arith), arc)) h)

  collect_blocks-known :
      (bi : ℕ) (suffix : List BasicBlock) (s : Arcs)
      → ((k j : ℕ) → j ≡ bi + k → get_elem? blocks j ≡ get_elem? suffix k)
      → ArcsKnown s
      → ArcsKnown (collect_blocks bi suffix s)
  unfolding collect_blocks
  collect_blocks-known bi [] s sub h = h
  collect_blocks-known bi (bb ∷ rest) s sub h =
      collect_blocks-known (suc bi) rest (collect_insts bi 0 bb.insts s)
        (λ k j p. sub (suc k) j (omega arith))
        (collect_insts-known bi 0 bb bb.insts s (sub 0 bi (omega arith))
          (λ k j p. ap (get_elem? bb.insts) (omega arith)) h)

  pub arcs_of-known : ArcsKnown (arcs_of blocks)
  arcs_of-known =
      collect_blocks-known 0 blocks no_arcs (λ k j p. ap (get_elem? blocks) (omega arith))
        (record { retains = tt; releases = tt })
