-- ===== src/Identity/Tokens/Runs.antt =====
-- The runs that the loop of tokens takes out: they end inside the slice, and the loop with its
-- counter reads a word run by run.
use abstraction_model.Base.{
  All, Bool-cases, Bytes, List, [], arith, codes, drop, equal, equal_iff, false, inl, inr, length,
  ltb, refl, suc, take, take-append-drop, true, zero, ℕ, ◌&&◌, ◌++◌, ◌-◌, ◌<◌, ◌==◌, ◌∷◌, ◌≡◌, ◌≤◌,
  ◌⊎◌,
}
use abstraction_model.Identity.Token.{digits, is_block_format, is_quant_level, positive}
use abstraction_model.Identity.Tokens.{
  block_run, keep_round, quant_run, shard_run, skip_of, tail_run, takes_block, token_loop, word_run,
}
use abstraction_model.Identity.Words.{quant_tail, quant_word}

tail_run-le-length : (ts : List Bytes) → tail_run ts ≤ length ts
unfolding tail_run
tail_run-le-length [] = omega arith
tail_run-le-length (t ∷ ts) = ground (arith, tail_run-le-length ts)

word_run-le-length : (t : Bytes) (ts : List Bytes) → word_run t ts ≤ length (t ∷ ts)
unfolding word_run
word_run-le-length t [] = ground (arith, tail_run-le-length [])
word_run-le-length t (u ∷ ts) = ground (arith, tail_run-le-length (u ∷ ts))

-- A quantisation run ends inside the slice that it starts in: the slice expression that takes it
-- is in bounds.
pub quant_run-le-length : (ts : List Bytes) → quant_run ts ≤ length ts
unfolding quant_run
quant_run-le-length [] = omega arith
quant_run-le-length (t ∷ []) = word_run-le-length t []
quant_run-le-length (t ∷ (u ∷ ts)) =
    ground
      (arith, quant_run-le-length (u ∷ ts), word_run-le-length t (u ∷ ts), word_run-le-length u ts)

-- A quantisation run, described by its tokens.
pub data IsQuantRun : List Bytes → Type 0 where
  word : (t : Bytes) → quant_word t ≡ true → IsQuantRun (t ∷ [])
  blocks :
      (t u : Bytes)
      → (t ≡ codes "fp8") ⊎ (t ≡ codes "f8") ⊎ (t ≡ codes "fp4")
      → is_block_format u ≡ true
      → IsQuantRun (t ∷ u ∷ [])
  level :
      (t : Bytes) (tails : List Bytes)
      → is_quant_level t ≡ true
      → All (λ u. quant_tail u ≡ true) tails
      → IsQuantRun (t ∷ tails)
  ud : (run : List Bytes) → IsQuantRun run → IsQuantRun (codes "ud" ∷ run)

take-tail_run : (ts : List Bytes) → All (λ u. quant_tail u ≡ true) (take (tail_run ts) ts)
unfolding tail_run
take-tail_run [] = tt
take-tail_run (t ∷ ts) = elim (Bool-cases (quant_tail t)) [
  | inl q ↦ rw q (q, take-tail_run ts)
  | inr q ↦ rw q tt
]

takes_block-cases :
    (t : Bytes) → takes_block t ≡ true → (t ≡ codes "fp8") ⊎ (t ≡ codes "f8") ⊎ (t ≡ codes "fp4")
unfolding takes_block
takes_block-cases t h =
    ground (arith, equal_iff t (codes "fp8"), equal_iff t (codes "f8"), equal_iff t (codes "fp4"))

block_run-IsQuantRun :
    (t : Bytes) (ts : List Bytes)
    → quant_word t ≡ true
    → takes_block t ≡ true
    → IsQuantRun (take (block_run ts) (t ∷ ts))
unfolding block_run
block_run-IsQuantRun t [] q b = word t q
block_run-IsQuantRun t (u ∷ ts) q b = elim (Bool-cases (is_block_format u)) [
  | inl f ↦ rw f (blocks t u (takes_block-cases t b) f)
  | inr f ↦ rw f (word t q)
]

word_run-IsQuantRun :
    (t : Bytes) (ts : List Bytes) → 0 < word_run t ts → IsQuantRun (take (word_run t ts) (t ∷ ts))
unfolding word_run
word_run-IsQuantRun t ts h = elim (Bool-cases (quant_word t)) [
  | inl q ↦ elim (Bool-cases (takes_block t)) [
    | inl b ↦ rw (q, b) (block_run-IsQuantRun t ts q b)
    | inr b ↦ rw (q, b) (word t q)
  ]
  | inr q ↦ elim (Bool-cases (is_quant_level t)) [
    | inl l ↦ rw (q, l) (level t (take (tail_run ts) ts) l (take-tail_run ts))
    | inr l ↦ absurd (ground arith)
  ]
]

-- What a positive run takes is a quantisation run.
pub quant_run-IsQuantRun :
    (ts : List Bytes) → 0 < quant_run ts → IsQuantRun (take (quant_run ts) ts)
unfolding quant_run
quant_run-IsQuantRun [] h = absurd (omega arith)
quant_run-IsQuantRun (t ∷ []) h = word_run-IsQuantRun t [] h
quant_run-IsQuantRun (t ∷ (u ∷ ts)) h =
    elim (Bool-cases (equal t (codes "ud") && ltb 0 (quant_run (u ∷ ts)))) [
      | inl d ↦ elim (Bool-cases (word_run u ts == 0)) [
        | inl z ↦ absurd (ground arith)
        | inr z ↦
            let e : t ≡ codes "ud" = ground (arith, equal_iff t (codes "ud")) in
            rw (d, z, e) (ud _ (word_run-IsQuantRun u ts (ground arith)))
      ]
      | inr d ↦ rw d (word_run-IsQuantRun t (u ∷ ts) (ground arith))
    ]

-- How a word's tokens are read, run by run: what is kept, and the first quantisation run.
pub data Scan : List Bytes → List Bytes → List Bytes → Type 0 where
  done : Scan [] [] []
  shard :
      {rest kept quant : List Bytes} (a b c : Bytes)
      → b ≡ codes "of"
      → positive (digits a) ≡ true
      → positive (digits c) ≡ true
      → Scan rest kept quant
      → Scan (a ∷ b ∷ c ∷ rest) kept quant
  run :
      {raw rest kept quant : List Bytes} (r : List Bytes)
      → shard_run raw ≡ false
      → raw ≡ r ++ rest
      → r ≡ take (quant_run raw) raw
      → IsQuantRun r
      → Scan rest kept quant
      → Scan raw kept r
  keep :
      {rest kept quant : List Bytes} (t : Bytes)
      → shard_run (t ∷ rest) ≡ false
      → quant_run (t ∷ rest) ≡ 0
      → Scan rest kept quant
      → Scan (t ∷ rest) (t ∷ kept) quant

-- A list of tokens that starts a shard run, and the loop's counter behind it.
shard_run-Scan :
    (t : Bytes) (ts kept quant : List Bytes)
    → shard_run (t ∷ ts) ≡ true
    → Scan (drop 2 ts) kept quant
    → Scan (t ∷ ts) kept quant
unfolding shard_run
shard_run-Scan t [] kept quant h s = cc
shard_run-Scan t (b ∷ []) kept quant h s = cc
shard_run-Scan t (b ∷ (c ∷ ts)) kept quant h s =
    shard t b c (ground (arith, equal_iff b (codes "of"))) (ground arith) (ground arith) s

take-drop_pred {ℓ} :
    {A : Type ℓ} (n : ℕ) (x : A) (xs : List A) → 0 < n → x ∷ xs ≡ take n (x ∷ xs) ++ drop (n - 1) xs
take-drop_pred zero x xs h = absurd (omega arith)
take-drop_pred (suc n) x xs h = let e : suc n - 1 ≡ n = omega arith in rw (e, take-append-drop n xs)

quant_run-Scan :
    (t : Bytes) (ts kept quant : List Bytes)
    → shard_run (t ∷ ts) ≡ false
    → 0 < quant_run (t ∷ ts)
    → Scan (drop (quant_run (t ∷ ts) - 1) ts) kept quant
    → Scan (t ∷ ts) kept (take (quant_run (t ∷ ts)) (t ∷ ts))
quant_run-Scan t ts kept quant n h s =
    run _ n (take-drop_pred _ t ts h) refl (quant_run-IsQuantRun (t ∷ ts) h) s

keep_round-Scan :
    (t : Bytes) (ts kept quant : List Bytes)
    → Scan (drop (skip_of (t ∷ ts)) ts) kept quant
    → Scan (t ∷ ts) (keep_round (t ∷ ts) (kept, quant)).0 (keep_round (t ∷ ts) (kept, quant)).1
unfolding skip_of
keep_round-Scan t ts kept quant s = elim (Bool-cases (shard_run (t ∷ ts))) [
  | inl h ↦ rw h (shard_run-Scan t ts kept quant h (rw h at s))
  | inr h ↦ elim (Bool-cases (quant_run (t ∷ ts) == 0)) [
    | inl z ↦
        let e : quant_run (t ∷ ts) ≡ 0 = ground arith in rw (h, e) (keep t h e (rw (h, e) at s))
    | inr z ↦ rw (h, z) (quant_run-Scan t ts kept quant h (ground arith) (rw h at s))
  ]
]

token_loop-Scan :
    (ts : List Bytes) (k : ℕ) → Scan (drop k ts) (token_loop k ts).0 (token_loop k ts).1
unfolding token_loop
token_loop-Scan [] zero = done
token_loop-Scan [] (suc k) = done
token_loop-Scan (t ∷ ts) (suc k) = token_loop-Scan ts k
token_loop-Scan (t ∷ ts) zero = keep_round-Scan t ts _ _ (token_loop-Scan ts (skip_of (t ∷ ts)))

-- The loop of tokens reads the whole word run by run: at each place it takes out a shard counter,
-- else a quantisation run if one starts there, else it keeps the token; the quantisation that it
-- reports is the first run.
pub token_loop-Scan_all : (raw : List Bytes) → Scan raw (token_loop 0 raw).0 (token_loop 0 raw).1
token_loop-Scan_all raw = token_loop-Scan raw 0
