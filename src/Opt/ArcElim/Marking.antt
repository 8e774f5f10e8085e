-- ===== src/Opt/ArcElim/Marking.antt =====
-- What the elimination of reference counting marks: toolchain/tiny_sil_optimizer/arc_elim.cpp.
use tinyswift.Prelude.{
  leb, ◌==◌, Bool, true, false, not, ◌&&◌, List, [], ◌∷◌, ℤ, Option, none, some, lookup_id, map,
  length, All, All-append, All-take, All-map, ◌≡◌, refl, Bool-cases, inl, inr,
}
use tinyswift.Sil.{BasicBlock}
use tinyswift.Opt.ArcElim.Positions.{IsArcAt, AllArcs, AllGroups, lookup-AllGroups, arcs_of-known}
use tinyswift.Opt.ArcElim.Classify.{value_escapes, is_alloc_class_producer}
use tinyswift.Opt.ArcElim.Collect.{ArcInst, Position, position, is_marked, Groups}
use tinyswift.Opt.ArcElim.{
  ArcStats, Marks, paired_releases, mark_pairs, borrow_pair, borrow_found, borrow_all, unmarked,
  is_last_use, insts_at, move_pair, move_found, move_all, mark_all,
}

abbrev pub Known : List BasicBlock → Marks → Type 0
Known blocks s = All (IsArcAt blocks) s.to_remove

module _ (blocks : List BasicBlock) where
  mark_pairs-Known :
      (retain_list release_list : List ArcInst) (s : Marks)
      → AllArcs blocks retain_list
      → AllArcs blocks release_list
      → Known blocks s
      → Known blocks (mark_pairs retain_list release_list s)
  unfolding mark_pairs
  mark_pairs-Known retain_list release_list s hr hl h =
      All-append (IsArcAt blocks) (map position release_list) _
        (All-map (IsArcAt blocks) position release_list hl)
        (All-append (IsArcAt blocks) (map position retain_list) _
          (All-map (IsArcAt blocks) position retain_list hr) h)

  paired_releases-AllArcs :
      (alloc : Bool) (retain_list release_list : List ArcInst)
      → AllArcs blocks release_list
      → AllArcs blocks (paired_releases alloc retain_list release_list)
  unfolding paired_releases
  paired_releases-AllArcs true retain_list release_list h =
      All-take (λ a. IsArcAt blocks (position a)) (length retain_list) release_list h
  paired_releases-AllArcs false retain_list release_list h = h

  borrow_pair-Known :
      (value_id : ℤ) (retain_list release_list : List ArcInst) (s : Marks)
      → AllArcs blocks retain_list
      → AllArcs blocks release_list
      → Known blocks s
      → Known blocks (borrow_pair blocks value_id retain_list release_list s)
  unfolding borrow_pair
  borrow_pair-Known value_id retain_list release_list s hr hl h =
      let alloc = is_alloc_class_producer blocks value_id in
      let marked =
        mark_pairs-Known retain_list (paired_releases alloc retain_list release_list) s hr
          (paired_releases-AllArcs alloc retain_list release_list hl) h in
      elim (Bool-cases (alloc && leb (length release_list) (length retain_list))) [
        | inl e ↦ rw e h
        | inr e ↦ elim (Bool-cases (value_escapes blocks value_id)) [
          | inl f ↦ rw (e, f) h
          | inr f ↦ rw (e, f) marked
        ]
      ]

  borrow_found-Known :
      (value_id : ℤ) (retain_list : List ArcInst) (o : Option (List ArcInst)) (s : Marks)
      → AllArcs blocks retain_list
      → ((l : List ArcInst) → o ≡ some l → AllArcs blocks l)
      → Known blocks s
      → Known blocks (borrow_found blocks value_id retain_list o s)
  unfolding borrow_found
  borrow_found-Known value_id retain_list none s hr hl h = h
  borrow_found-Known value_id retain_list (some l) s hr hl h =
      borrow_pair-Known value_id retain_list l s hr (hl l refl) h

  borrow_all-Known :
      (releases groups : Groups) (s : Marks)
      → AllGroups blocks releases
      → AllGroups blocks groups
      → Known blocks s
      → Known blocks (borrow_all blocks releases groups s)
  unfolding borrow_all
  borrow_all-Known releases [] s hl hg h = h
  borrow_all-Known releases ((id, retain_list) ∷ rest) s hl hg h =
      borrow_all-Known releases rest _ hl hg.1 (
        borrow_found-Known id retain_list (lookup_id id releases) s hg.0
          (λ l e. lookup-AllGroups blocks id releases l hl e) h)

  unmarked-AllArcs :
      (marks : List Position) (group : List ArcInst)
      → AllArcs blocks group
      → AllArcs blocks (unmarked marks group)
  unfolding unmarked
  unmarked-AllArcs marks [] h = tt
  unmarked-AllArcs marks (a ∷ rest) h = elim (Bool-cases (is_marked (position a) marks)) [
    | inl e ↦ rw e (unmarked-AllArcs marks rest h.1)
    | inr e ↦ rw e (h.0, unmarked-AllArcs marks rest h.1)
  ]

  move_pair-Known :
      (value_id : ℤ) (retain_list release_list : List ArcInst) (s : Marks)
      → AllArcs blocks retain_list
      → AllArcs blocks release_list
      → Known blocks s
      → Known blocks (move_pair blocks value_id retain_list release_list s)
  unfolding move_pair
  move_pair-Known value_id (retain ∷ []) (release ∷ _) s hr hl h =
      elim (Bool-cases (
        not (is_alloc_class_producer blocks value_id)
        && (retain.block_index == release.block_index
            && is_last_use (insts_at blocks retain.block_index) value_id retain release))) [
              | inl e ↦ rw e (hl.0, (hr.0, h))
              | inr e ↦ rw e h
            ]
  move_pair-Known value_id _ _ s hr hl h = h

  move_found-Known :
      (value_id : ℤ) (retain_list : List ArcInst) (o : Option (List ArcInst)) (s : Marks)
      → AllArcs blocks retain_list
      → ((l : List ArcInst) → o ≡ some l → AllArcs blocks l)
      → Known blocks s
      → Known blocks (move_found blocks value_id retain_list o s)
  unfolding move_found
  move_found-Known value_id retain_list none s hr hl h = h
  move_found-Known value_id retain_list (some l) s hr hl h =
      move_pair-Known value_id _ _ s (unmarked-AllArcs s.to_remove retain_list hr)
        (unmarked-AllArcs s.to_remove l (hl l refl)) h

  move_all-Known :
      (releases groups : Groups) (s : Marks)
      → AllGroups blocks releases
      → AllGroups blocks groups
      → Known blocks s
      → Known blocks (move_all blocks releases groups s)
  unfolding move_all
  move_all-Known releases [] s hl hg h = h
  move_all-Known releases ((id, retain_list) ∷ rest) s hl hg h =
      move_all-Known releases rest _ hl hg.1 (
        move_found-Known id retain_list (lookup_id id releases) s hg.0
          (λ l e. lookup-AllGroups blocks id releases l hl e) h)

  pub mark_all-Known : (stats : ArcStats) → Known blocks (mark_all blocks stats)
  unfolding mark_all
  mark_all-Known stats =
      let k = arcs_of-known blocks in
      move_all-Known _ _ _ k.releases k.retains (borrow_all-Known _ _ _ k.releases k.retains tt)
