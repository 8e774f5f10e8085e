-- ===== src/Opt/ArcElim/Collect.antt =====
-- toolchain/tiny_sil_optimizer/arc_elim.cpp, step 1: the retains and releases of a function,
-- grouped by the value that they count. An instruction's address is its position.
use tinyswift.Prelude.{
  ℕ, suc, Bool, false, ◌&&◌, ◌||◌, List, [], ◌∷◌, ◌++◌, ℤ, if◌then◌else◌, str_eq, id_eq, ◌==◌,
}
use tinyswift.Sil.{is_valid, Instruction, BasicBlock, is_builtin}

pub record ArcInst : Type 0 where
  pub inst : Instruction
  pub block_index : ℕ
  pub inst_index : ℕ

abbrev pub Position : Type 0
Position = ℕ × ℕ

abbrev pub position : ArcInst → Position
position a = (a.block_index, a.inst_index)

-- `to_remove.count(inst)`
unfoldable pub is_marked : Position → List Position → Bool
is_marked p [] = false
is_marked p (q ∷ rest) = (p.0 == q.0 && p.1 == q.1) || is_marked p rest

abbrev pub Groups : Type 0
Groups = List (ℤ × List ArcInst)

-- `groups[id].push_back(a)`; the groups stand in the order of their first entries.
unfoldable pub push_group : ℤ → ArcInst → Groups → Groups
push_group id a [] = (id, a ∷ []) ∷ []
push_group id a ((j, group) ∷ rest) =
    let others = push_group id a rest in
    if id_eq id j then (j, group ++ a ∷ []) ∷ rest else (j, group) ∷ others

pub record Arcs : Type 0 where
  pub retains : Groups
  pub releases : Groups

unfoldable pub is_retain : Instruction → Bool
is_retain i = is_builtin i.kind && (str_eq i.builtin_name "retain" && is_valid i.operand0)

unfoldable pub is_release : Instruction → Bool
is_release i =
    is_builtin i.kind
    && ((str_eq i.builtin_name "release" || str_eq i.builtin_name "release_cycle")
        && is_valid i.operand0)

unfoldable pub collect_inst : ArcInst → Arcs → Arcs
collect_inst a s =
    if is_retain a.inst
    then record s { retains = push_group a.inst.operand0.id a s.retains }
    else if is_release a.inst
    then record s { releases = push_group a.inst.operand0.id a s.releases }
    else s

unfoldable pub collect_insts : ℕ → ℕ → List Instruction → Arcs → Arcs
collect_insts bi ii [] s = s
collect_insts bi ii (i ∷ rest) s =
    collect_insts bi (suc ii) rest
      (collect_inst (record { inst = i; block_index = bi; inst_index = ii }) s)

unfoldable pub collect_blocks : ℕ → List BasicBlock → Arcs → Arcs
collect_blocks bi [] s = s
collect_blocks bi (bb ∷ rest) s = collect_blocks (suc bi) rest (collect_insts bi 0 bb.insts s)

abbrev pub no_arcs : Arcs
no_arcs = record { retains = []; releases = [] }

abbrev pub arcs_of : List BasicBlock → Arcs
arcs_of blocks = collect_blocks 0 blocks no_arcs
