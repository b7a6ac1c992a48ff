-- ===== src/BoolAndBatchOperator/Extract.antt =====
-- The triples that are cut out of packed ones.
use mpc_package.Base.{ℕ, zero, suc, ◌+◌, ◌-◌, ◌*◌, ◌/◌, ◌%◌, ◌^◌, ◌≤◌, ◌<◌, ◌≡◌, ap, ◌∙◌}
use mpc_package.Base.{arith, List, get_or, Bool, true, ◌&&◌, ltb-lt, ltb-le}
use mpc_package.Base.{bit, bit_and, bit-bit_and, bit_and-lt, bit-ones}
use mpc_package.Word.{IsWord, shl}
use mpc_package.Word.Bits.{bit-shl, bit-sar, sar-IsWord}
use mpc_package.Word.Cong.{mul_mod_left}
use mpc_package.Math.Ring.{mask-eq}
use mpc_package.Bmt.{Bmt}
use mpc_package.Bmt.Triples.{XorTriple, AreWordsOf}
use mpc_package.BitwiseBmtBatchGenerator.Correct.{XorTriples, no_triple, triple}
use mpc_package.BoolAndBatchOperator.{shl_register, sar_register, extract_word, extract_from}

-- The offset in the register.
offset-mod : (i width : ℕ) → i % 64 * width % 64 ≡ i * width % 64
offset-mod i width = mul_mod_left 64 i width

bit-extract_word :
    (v i width j : ℕ)
    → IsWord v
    → width < 64
    → i * width % 64 + width ≤ 64
    → j < width
    → bit (extract_word v i width) j ≡ bit v (i * width % 64 + j)
unfolding extract_word shl_register sar_register
bit-extract_word v i width j h le fits lt =
    rw (offset-mod i width, mask-eq width le)
      (bit-sar (bit_and v (shl (2 ^ width - 1) (i * width % 64))) (i * width % 64) j
          (bit_and-lt 64 v _ h) (omega arith)
        ∙ bit-bit_and (j + i * width % 64) v (shl (2 ^ width - 1) (i * width % 64))
        ∙ rw
            (
              bit-shl (2 ^ width - 1) (i * width % 64) (j + i * width % 64),
              ltb-lt (j + i * width % 64) 64 (omega arith),
              ltb-le (j + i * width % 64) (i * width % 64) (omega arith),
              back j (i * width % 64),
              bit-ones width j,
              ltb-lt j width lt,
            )
            (keep (bit v (j + i * width % 64)) ∙ ap (λ t. bit v t) (swap j (i * width % 64))))
  where
    back : (j o : ℕ) → j + o - o ≡ j
    back j o = omega arith

    swap : (j o : ℕ) → j + o ≡ o + j
    swap j o = omega arith

    keep : (b : Bool) → (b && true) ≡ b
    keep b = ground arith

extract_word-IsWord : (v i width : ℕ) → IsWord v → IsWord (extract_word v i width)
unfolding extract_word shl_register sar_register
extract_word-IsWord v i width h = sar-IsWord _ _ (bit_and-lt 64 v _ h)

-- A word of a batch of triples.
pub get-XorTriple :
    {n : ℕ} {ss ts : List Bmt} (k : ℕ)
    → XorTriples n ss ts
    → k < n
    → XorTriple 64
        (get_or ss k (record { a = 0; b = 0; c = 0 }))
        (get_or ts k (record { a = 0; b = 0; c = 0 }))
get-XorTriple k no_triple lt = absurd (omega arith)
get-XorTriple zero (triple t ts) lt = t
get-XorTriple (suc k) (triple t ts) lt = get-XorTriple k ts (omega arith)

-- If the digits of conjunction `i` are in one word of the batch, then what is cut out is a triple.
pub extract_from-XorTriple :
    {n : ℕ} {ss ts : List Bmt} (i width : ℕ)
    → width < 64
    → i * width % 64 + width ≤ 64
    → i * width / 64 < n
    → XorTriples n ss ts
    → XorTriple width (extract_from ss i width) (extract_from ts i width)
unfolding extract_from
extract_from-XorTriple {n} {ss} {ts} i width le fits lt batch =
    cut (get-XorTriple (i * width / 64) batch lt)
  where
    cut :
        {s t : Bmt}
        → XorTriple 64 s t
        → XorTriple width
            (record {
              a = extract_word s.a i width;
              b = extract_word s.b i width;
              c = extract_word s.c i width;
            })
            (record {
              a = extract_word t.a i width;
              b = extract_word t.b i width;
              c = extract_word t.c i width;
            })
    cut {s} {t} h = record {
      words0 = words s h.words0;
      words1 = words t h.words1;
      digits = λ j below.
          rw
            (
              bit-extract_word s.a i width j h.words0.a_word le fits below,
              bit-extract_word s.b i width j h.words0.b_word le fits below,
              bit-extract_word s.c i width j h.words0.c_word le fits below,
              bit-extract_word t.a i width j h.words1.a_word le fits below,
              bit-extract_word t.b i width j h.words1.b_word le fits below,
              bit-extract_word t.c i width j h.words1.c_word le fits below,
            )
            (h.digits (i * width % 64 + j) (omega arith));
    }
      where
        words :
            (s : Bmt)
            → AreWordsOf s
            → AreWordsOf (record {
              a = extract_word s.a i width;
              b = extract_word s.b i width;
              c = extract_word s.c i width;
            })
        words s w = record {
          a_word = extract_word-IsWord s.a i width w.a_word;
          b_word = extract_word-IsWord s.b i width w.b_word;
          c_word = extract_word-IsWord s.c i width w.c_word;
        }
