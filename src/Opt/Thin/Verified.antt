-- ===== src/Opt/Thin/Verified.antt =====
-- A pass that only removes instructions which are no terminators keeps a function well formed.
use tinyswift.Prelude.{
  ℕ, suc, Bool, true, false, List, [], ◌∷◌, ◌++◌, ◌≡◌, refl, ap, sym, length, All, Subseq,
  Subseq-refl, Subseq-append, Fresh-Subseq, is_empty, ◌∙◌, Subseq-cons_id, Subseq-skip_id,
}
use tinyswift.Sil.{Instruction, BasicBlock, Function, is_terminator, valid_ids}
use tinyswift.Sil.Verifier.{block_args}
use tinyswift.Sil.Verifier.WellFormed.{
  Requires, EndsWithTerminator, results, block_results, Numbered, IsWellFormedBlock,
  IsWellFormedBody, HasShape, IsWellFormed,
}
use tinyswift.Opt.Thin.{Thins, done, keep, skip, ThinsBlocks, no_blocks, block, ThinsFunction}

abbrev pub IsInner : Instruction → Type 0
IsInner i = is_terminator i.kind ≡ false

cons_ends :
    (i : Instruction) (ys : List Instruction)
    → IsInner i
    → EndsWithTerminator ys
    → EndsWithTerminator (i ∷ ys)
cons_ends i [] t e = absurd e
cons_ends i (y ∷ ys) t e = (t, e)

Thins-ends :
    {xs ys : List Instruction} → Thins IsInner xs ys → EndsWithTerminator xs → EndsWithTerminator ys
Thins-ends done e = e
Thins-ends (keep i done) e = e
Thins-ends (keep i (keep {ys} j t)) e = cons_ends i (j ∷ ys) e.0 (Thins-ends (keep j t) e.1)
Thins-ends (keep i (skip {ys} j p t)) e = cons_ends i ys e.0 (Thins-ends (skip j p t) e.1)
Thins-ends (skip i p done) e = cc
Thins-ends (skip i p (keep j t)) e = Thins-ends (keep j t) e.1
Thins-ends (skip i p (skip j q t)) e = Thins-ends (skip j q t) e.1

pub Thins-All {κ} :
    {P : Instruction → Type 0} (Q : Instruction → Type κ) {xs ys : List Instruction}
    → Thins P xs ys
    → All Q xs
    → All Q ys
Thins-All Q done h = h
Thins-All Q (keep i t) h = (h.0, Thins-All Q t h.1)
Thins-All Q (skip i p t) h = Thins-All Q t h.1

-- The identifiers that the results define.
Thins-results :
    {P : Instruction → Type 0} {xs ys : List Instruction}
    → Thins P xs ys
    → Subseq (valid_ids (results xs)) (valid_ids (results ys))
Thins-results done = Subseq.done
Thins-results (keep i t) = Subseq-cons_id i.result.id (Thins-results t)
Thins-results (skip i p t) = Subseq-skip_id i.result.id (Thins-results t)

module _ {P : Instruction → Type 0} where
  ThinsBlocks-results :
      {xs ys : List BasicBlock} → ThinsBlocks P xs ys → Subseq (block_results xs) (block_results ys)
  ThinsBlocks-results no_blocks = Subseq.done
  ThinsBlocks-results (block bb kept t ts) =
      Subseq-append (Thins-results t) (ThinsBlocks-results ts)

  ThinsBlocks-args : {xs ys : List BasicBlock} → ThinsBlocks P xs ys → block_args xs ≡ block_args ys
  unfolding block_args
  ThinsBlocks-args no_blocks = refl
  ThinsBlocks-args (block bb kept t ts) = ap (λ vs. bb.args ++ vs) (ThinsBlocks-args ts)

  ThinsBlocks-length : {xs ys : List BasicBlock} → ThinsBlocks P xs ys → length xs ≡ length ys
  ThinsBlocks-length no_blocks = refl
  ThinsBlocks-length (block bb kept t ts) = ap suc (ThinsBlocks-length ts)

  ThinsBlocks-empty : {xs ys : List BasicBlock} → ThinsBlocks P xs ys → is_empty xs ≡ is_empty ys
  ThinsBlocks-empty no_blocks = refl
  ThinsBlocks-empty (block bb kept t ts) = refl

  ThinsBlocks-Numbered :
      {xs ys : List BasicBlock} (n : ℕ) → ThinsBlocks P xs ys → Numbered n xs → Numbered n ys
  ThinsBlocks-Numbered n no_blocks h = tt
  ThinsBlocks-Numbered n (block bb kept t ts) h = (h.0, ThinsBlocks-Numbered (suc n) ts h.1)

ThinsBlocks-well_formed :
    {xs ys : List BasicBlock} (count : ℕ)
    → ThinsBlocks IsInner xs ys
    → All (IsWellFormedBlock count) xs
    → All (IsWellFormedBlock count) ys
ThinsBlocks-well_formed count no_blocks h = tt
ThinsBlocks-well_formed count (block bb kept t ts) h = (
  record {
    ends = Thins-ends t h.0.ends;
    each = Thins-All (λ i. Requires i.kind count i) t h.0.each;
  },
  ThinsBlocks-well_formed count ts h.1,
)

ThinsBlocks-body :
    {xs ys : List BasicBlock}
    → ThinsBlocks IsInner xs ys
    → IsWellFormedBody xs
    → IsWellFormedBody ys
ThinsBlocks-body {xs} {ys} t h = record {
  has_block = sym (ThinsBlocks-empty t) ∙ h.has_block;
  numbered = ThinsBlocks-Numbered 0 t h.numbered;
  single =
      Fresh-Subseq []
        (Subseq-append (Subseq-refl (valid_ids (block_args ys))) (ThinsBlocks-results t))
        (rw (ThinsBlocks-args t) at h.single);
  bodies = ThinsBlocks-well_formed (length ys) t (rw (ThinsBlocks-length t) at h.bodies);
}

HasShape-thin :
    {xs ys : List BasicBlock} (decl : Bool)
    → ThinsBlocks IsInner xs ys
    → HasShape decl xs
    → HasShape decl ys
HasShape-thin true t h = sym (ThinsBlocks-empty t) ∙ h
HasShape-thin false t h = ThinsBlocks-body t h

pub ThinsFunction-IsWellFormed :
    {fn thinned : Function}
    → ThinsFunction IsInner fn thinned
    → IsWellFormed fn
    → IsWellFormed thinned
ThinsFunction-IsWellFormed {fn} t h =
    rw t.same (record { named = h.named; shape = HasShape-thin fn.is_declaration t.thins h.shape })
