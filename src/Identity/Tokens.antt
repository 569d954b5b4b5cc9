-- ===== src/Identity/Tokens.antt =====
-- tokens, shardRun and quantRun: the tokens of one word, with shard counters and quantisation
-- runs taken out. A position `i` in the slice is the list of tokens from there on.
pub mod Runs
use abstraction_model.Base.{
  Bool, Bytes, List, [], codes, equal, false, if◌then◌else◌, ltb, suc, take, zero, ℕ, ◌&&◌, ◌-◌,
  ◌==◌, ◌||◌, ◌∷◌,
}
use abstraction_model.Strings.{fields, join}
use abstraction_model.Identity.Token.{digits, is_block_format, is_quant_level, positive}
use abstraction_model.Identity.Words.{quant_tail, quant_word}

unfoldable pub is_separator : ℕ → Bool
is_separator c = c == b'-' || c == b'_' || c == b' ' || c == b'+'

unfoldable pub raw_tokens : Bytes → List Bytes
unfolding fields is_separator
raw_tokens = fields is_separator

unfoldable pub shard_run : List Bytes → Bool
unfolding digits positive
shard_run (a ∷ (b ∷ (c ∷ rest))) =
    equal b (codes "of") && positive (digits a) && positive (digits c)
shard_run _ = false

-- How many tokens from here on are quantisation tails.
unfoldable pub tail_run : List Bytes → ℕ
tail_run [] = 0
tail_run (t ∷ rest) = let more = tail_run rest in if quant_tail t then suc more else 0

unfoldable pub takes_block : Bytes → Bool
takes_block t = equal t (codes "fp8") || equal t (codes "f8") || equal t (codes "fp4")

-- A quantisation word, and a block format where one stands behind it.
unfoldable pub block_run : List Bytes → ℕ
block_run [] = 1
block_run (u ∷ more) = if is_block_format u then 2 else 1

-- The run that the token `t` starts, `rest` being what stands behind it; 0 if it starts none.
unfoldable pub word_run : Bytes → List Bytes → ℕ
unfolding tail_run takes_block block_run
word_run t rest =
    if quant_word t
    then (if takes_block t then block_run rest else 1)
    else if is_quant_level t
    then suc (tail_run rest)
    else 0

unfoldable pub quant_run : List Bytes → ℕ
unfolding word_run
quant_run [] = 0
quant_run (t ∷ []) = word_run t []
quant_run (t ∷ (u ∷ rest)) =
    let after = quant_run (u ∷ rest) in
    if equal t (codes "ud") && ltb 0 after
    then (let run = word_run u rest in if run == 0 then 0 else suc run)
    else word_run t (u ∷ rest)

-- One round of the loop: the tokens that it passes, less the one that it always passes.
unfoldable pub skip_of : List Bytes → ℕ
unfolding shard_run quant_run
skip_of raw = if shard_run raw then 2 else quant_run raw - 1

-- What the round keeps, in front of what the later rounds keep, and the first quantisation run.
abbrev pub keep_round : List Bytes → List Bytes × List Bytes → List Bytes × List Bytes
keep_round [] later = later
keep_round (t ∷ ts) (kept, quant) =
    if shard_run (t ∷ ts)
    then (kept, quant)
    else if quant_run (t ∷ ts) == 0
    then (t ∷ kept, quant)
    else (kept, take (quant_run (t ∷ ts)) (t ∷ ts))

-- The loop over the tokens: the number is how many of the next ones a run has used up.
unfoldable pub token_loop : ℕ → List Bytes → List Bytes × List Bytes
token_loop k [] = ([], [])
token_loop (suc k) (t ∷ ts) = token_loop k ts
token_loop zero (t ∷ ts) = keep_round (t ∷ ts) (token_loop (skip_of (t ∷ ts)) ts)

unfoldable pub tokens : Bytes → List Bytes × Bytes
unfolding raw_tokens token_loop skip_of join
tokens p = let (kept, quant) = token_loop 0 (raw_tokens p) in (kept, join (codes "_") quant)
