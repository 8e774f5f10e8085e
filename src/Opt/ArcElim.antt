-- ===== src/Opt/ArcElim.antt =====
-- toolchain/tiny_sil_optimizer/arc_elim.cpp: RunARCElimination, steps 2 to 4. The groups are
-- visited in the order of their first entries, where the source visits a hash map.
pub mod Classify
pub mod Collect
pub mod Positions
pub mod Marking
pub mod Removes
use tinyswift.Prelude.{
  ℕ, suc, ◌+◌, ◌-◌, ltb, leb, ◌==◌, Bool, true, false, not, ◌&&◌, ◌||◌, List, [], ◌∷◌, ◌++◌, ℤ,
  Option, none, some, if◌then◌else◌, lookup_id, is_empty, map, all, any, length, take, drop,
  get_elem?,
}
use tinyswift.Sil.{Instruction, BasicBlock, Function}
use tinyswift.Opt.ArcElim.Classify.{value_escapes, is_alloc_class_producer, really_uses}
use tinyswift.Opt.ArcElim.Collect.{ArcInst, Position, position, is_marked, Groups, Arcs, arcs_of}

pub record ArcStats : Type 0 where
  pub retains_eliminated : ℕ
  pub releases_eliminated : ℕ
  pub moves_converted : ℕ

pub record Marks : Type 0 where
  pub to_remove : List Position
  pub stats : ArcStats

-- The releases that go with the retains: all, or as many as there are retains.
unfoldable pub paired_releases : Bool → List ArcInst → List ArcInst → List ArcInst
paired_releases is_alloc_class retain_list release_list =
    if is_alloc_class then take (length retain_list) release_list else release_list

unfoldable pub mark_pairs : List ArcInst → List ArcInst → Marks → Marks
mark_pairs retain_list release_list s = record {
  to_remove = map position release_list ++ (map position retain_list ++ s.to_remove);
  stats = record {
    retains_eliminated = s.stats.retains_eliminated + length retain_list;
    releases_eliminated = s.stats.releases_eliminated + length release_list;
    moves_converted = s.stats.moves_converted;
  };
}

-- Step 2 for one value with both retains and releases.
unfoldable pub borrow_pair : List BasicBlock → ℤ → List ArcInst → List ArcInst → Marks → Marks
borrow_pair blocks value_id retain_list release_list s =
    let is_alloc_class = is_alloc_class_producer blocks value_id in
    if is_alloc_class && leb (length release_list) (length retain_list)
    then s
    else if value_escapes blocks value_id
    then s
    else mark_pairs retain_list (paired_releases is_alloc_class retain_list release_list) s

unfoldable pub borrow_found :
    List BasicBlock → ℤ → List ArcInst → Option (List ArcInst) → Marks → Marks
borrow_found blocks value_id retain_list none s = s
borrow_found blocks value_id retain_list (some release_list) s =
    borrow_pair blocks value_id retain_list release_list s

unfoldable pub borrow_all : List BasicBlock → Groups → Groups → Marks → Marks
borrow_all blocks releases [] s = s
borrow_all blocks releases ((value_id, retain_list) ∷ rest) s =
    borrow_all blocks releases rest
      (borrow_found blocks value_id retain_list (lookup_id value_id releases) s)

unfoldable pub unmarked : List Position → List ArcInst → List ArcInst
unmarked marks [] = []
unmarked marks (a ∷ rest) =
    let others = unmarked marks rest in if is_marked (position a) marks then others else a ∷ others

abbrev pub insts_at : List BasicBlock → ℕ → List Instruction
insts_at blocks b = elim (get_elem? blocks b) [ none ↦ [] | some bb ↦ bb.insts ]

-- No real use of the value between the retain and the release, nor after it in the block.
unfoldable pub is_last_use : List Instruction → ℤ → ArcInst → ArcInst → Bool
is_last_use insts value_id retain release =
    not (
      any (really_uses value_id)
        (take (release.inst_index - (retain.inst_index + 1)) (drop (retain.inst_index + 1) insts)))
    && not (any (really_uses value_id) (drop (release.inst_index + 1) insts))

-- Step 3 for one value with one retain left; the first release left is the one that matches.
unfoldable pub move_pair : List BasicBlock → ℤ → List ArcInst → List ArcInst → Marks → Marks
move_pair blocks value_id (retain ∷ []) (release ∷ _) s =
    if not (is_alloc_class_producer blocks value_id)
      && (retain.block_index == release.block_index
          && is_last_use (insts_at blocks retain.block_index) value_id retain release)
    then record s {
      to_remove = position release ∷ position retain ∷ s.to_remove;
      stats = record (s.stats) { moves_converted = s.stats.moves_converted + 1 };
    }
    else s
move_pair blocks value_id _ _ s = s

unfoldable pub move_found :
    List BasicBlock → ℤ → List ArcInst → Option (List ArcInst) → Marks → Marks
move_found blocks value_id retain_list none s = s
move_found blocks value_id retain_list (some release_list) s =
    move_pair blocks value_id (unmarked s.to_remove retain_list) (unmarked s.to_remove release_list)
      s

unfoldable pub move_all : List BasicBlock → Groups → Groups → Marks → Marks
move_all blocks releases [] s = s
move_all blocks releases ((value_id, retain_list) ∷ rest) s =
    move_all blocks releases rest
      (move_found blocks value_id retain_list (lookup_id value_id releases) s)

-- Step 4.
unfoldable pub remove_insts : List Position → ℕ → ℕ → List Instruction → List Instruction
remove_insts marks bi ii [] = []
remove_insts marks bi ii (i ∷ rest) =
    let kept = remove_insts marks bi (suc ii) rest in
    if is_marked (bi, ii) marks then kept else i ∷ kept

unfoldable pub remove_blocks : List Position → ℕ → List BasicBlock → List BasicBlock
remove_blocks marks bi [] = []
remove_blocks marks bi (bb ∷ rest) =
    record bb { insts = remove_insts marks bi 0 bb.insts } ∷ remove_blocks marks (suc bi) rest

unfoldable pub mark_all : List BasicBlock → ArcStats → Marks
mark_all blocks stats =
    let arcs = arcs_of blocks in
    move_all blocks arcs.releases arcs.retains
      (borrow_all blocks arcs.releases arcs.retains (record { to_remove = []; stats = stats }))

pub record ArcResult : Type 0 where
  pub function : Function
  pub changed : Bool
  pub stats : ArcStats

-- RunARCElimination: without a retain nothing is looked at; the statistics accumulate.
unfoldable pub run_arc_elimination : Function → ArcStats → ArcResult
run_arc_elimination fn stats =
    let marks = mark_all fn.blocks stats in
    if is_empty (arcs_of fn.blocks).retains
    then record { function = fn; changed = false; stats = stats }
    else if is_empty marks.to_remove
    then record { function = fn; changed = false; stats = marks.stats }
    else record {
      function = record fn { blocks = remove_blocks marks.to_remove 0 fn.blocks };
      changed = true;
      stats = marks.stats;
    }
