-- ===== src/Opt/Thin.antt =====
-- A block or a function that lost instructions and nothing else: what dead code elimination and
-- the removal of reference counting share.
pub mod Verified
use tinyswift.Prelude.{
  ℕ, zero, suc, Bool, true, false, List, [], ◌∷◌, ◌++◌, ℤ, ◌≡◌, refl, length, get_elem?, Option,
  none, some,
}
use tinyswift.Sil.{Instruction, BasicBlock, Function}

-- The second list is the first without some instructions that satisfy `P`, in the same order.
pub data Thins (P : Instruction → Type 0) : List Instruction → List Instruction → Type 0 where
  done : Thins P [] []
  keep : {xs ys : List Instruction} (i : Instruction) → Thins P xs ys → Thins P (i ∷ xs) (i ∷ ys)
  skip : {xs ys : List Instruction} (i : Instruction) → P i → Thins P xs ys → Thins P (i ∷ xs) ys

-- The same blocks, each with its instructions thinned.
pub data ThinsBlocks (P : Instruction → Type 0) : List BasicBlock → List BasicBlock → Type 0 where
  no_blocks : ThinsBlocks P [] []
  block :
      {xs ys : List BasicBlock} (bb : BasicBlock) (kept : List Instruction)
      → Thins P bb.insts kept
      → ThinsBlocks P xs ys
      → ThinsBlocks P (bb ∷ xs) (record bb { insts = kept } ∷ ys)

-- The function is the same but for the thinned blocks.
pub record ThinsFunction (P : Instruction → Type 0) (fn thinned : Function) : Type 0 where
  pub blocks : List BasicBlock
  pub thins : ThinsBlocks P fn.blocks blocks
  pub same : thinned ≡ record fn { blocks = blocks }

pub Thins-refl : (P : Instruction → Type 0) (xs : List Instruction) → Thins P xs xs
Thins-refl P [] = done
Thins-refl P (i ∷ xs) = keep i (Thins-refl P xs)

pub Thins-weaken :
    {P Q : Instruction → Type 0} {xs ys : List Instruction}
    → ((i : Instruction) → P i → Q i)
    → Thins P xs ys
    → Thins Q xs ys
Thins-weaken f done = done
Thins-weaken f (keep i t) = keep i (Thins-weaken f t)
Thins-weaken f (skip i p t) = skip i (f i p) (Thins-weaken f t)

pub ThinsBlocks-refl :
    (P : Instruction → Type 0) (blocks : List BasicBlock) → ThinsBlocks P blocks blocks
ThinsBlocks-refl P [] = no_blocks
ThinsBlocks-refl P (bb ∷ rest) = block bb bb.insts (Thins-refl P bb.insts) (ThinsBlocks-refl P rest)

pub ThinsFunction-refl : (P : Instruction → Type 0) (fn : Function) → ThinsFunction P fn fn
ThinsFunction-refl P fn = record {
  blocks = fn.blocks;
  thins = ThinsBlocks-refl P fn.blocks;
  same = refl;
}

pub ThinsBlocks-weaken :
    {P Q : Instruction → Type 0} {xs ys : List BasicBlock}
    → ((i : Instruction) → P i → Q i)
    → ThinsBlocks P xs ys
    → ThinsBlocks Q xs ys
ThinsBlocks-weaken f no_blocks = no_blocks
ThinsBlocks-weaken f (block bb kept t ts) =
    block bb kept (Thins-weaken f t) (ThinsBlocks-weaken f ts)

pub ThinsFunction-weaken :
    {P Q : Instruction → Type 0} {fn thinned : Function}
    → ((i : Instruction) → P i → Q i)
    → ThinsFunction P fn thinned
    → ThinsFunction Q fn thinned
ThinsFunction-weaken f t = record {
  blocks = t.blocks;
  thins = ThinsBlocks-weaken f t.thins;
  same = t.same;
}
