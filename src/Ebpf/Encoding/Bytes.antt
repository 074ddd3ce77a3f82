-- ===== src/Ebpf/Encoding/Bytes.antt =====
-- The bytes that binary.Write puts for numbers, and how they are read back.
use native.Mathlib.Nat.{pow-suc}
use buzzer.Common.{
  ℕ, zero, suc, ◌+◌, ◌*◌, ◌/◌, ◌^◌, ◌<◌, ◌≡◌, refl, ap, ◌∙◌, sym, arith, List, [], ◌∷◌, ◌++◌,
  length, length-append, take, drop, All, All-append, append_assoc,
}
use buzzer.Common.Words.{IsU8, IsU64}
use buzzer.Ebpf.Encoding.{le_bytes, write_words}

-- The number that bytes stand for, the lowest first.
unfoldable pub le_value : List ℕ → ℕ
le_value [] = 0
le_value (b ∷ bs) = b + 256 * le_value bs

pub length-le_bytes : (n x : ℕ) → length (le_bytes n x) ≡ n
unfolding le_bytes
length-le_bytes zero x = refl
length-le_bytes (suc n) x = ap suc (length-le_bytes n (x / 256))

pub le_bytes-IsU8 : (n x : ℕ) → All IsU8 (le_bytes n x)
unfolding le_bytes
le_bytes-IsU8 zero x = tt
le_bytes-IsU8 (suc n) x = (omega arith, le_bytes-IsU8 n (x / 256))

pub le_value-le_bytes : (n x : ℕ) → x < 256 ^ n → le_value (le_bytes n x) ≡ x
unfolding le_bytes le_value
le_value-le_bytes zero x h = omega arith
le_value-le_bytes (suc n) x h =
    omega (arith, le_value-le_bytes n (x / 256) (omega (arith, pow-suc 256 n)))

-- The first `n` words of a stream of bytes.
unfoldable pub read_words : ℕ → List ℕ → List ℕ
unfolding le_value
read_words zero bytes = []
read_words (suc n) bytes = le_value (take 8 bytes) ∷ read_words n (drop 8 bytes)

pub length-write_words : (ws : List ℕ) → length (write_words ws) ≡ 8 * length ws
unfolding write_words
length-write_words [] = refl
length-write_words (w ∷ ws) =
    length-append (le_bytes 8 w) (write_words ws)
    ∙ omega (arith, length-le_bytes 8 w, length-write_words ws)

pub write_words-IsU8 : (ws : List ℕ) → All IsU8 (write_words ws)
unfolding write_words
write_words-IsU8 [] = tt
write_words-IsU8 (w ∷ ws) =
    All-append IsU8 (le_bytes 8 w) _ (le_bytes-IsU8 8 w) (write_words-IsU8 ws)

pub write_words-append :
    (us vs : List ℕ) → write_words (us ++ vs) ≡ write_words us ++ write_words vs
unfolding write_words
write_words-append [] vs = refl
write_words-append (u ∷ us) vs =
    ap (λ t. le_bytes 8 u ++ t) (write_words-append us vs)
    ∙ sym (append_assoc (le_bytes 8 u) (write_words us) (write_words vs))

-- The words that were written are read back, whatever bytes follow.
pub read_words-write_words :
    (ws rest : List ℕ) → All IsU64 ws → read_words (length ws) (write_words ws ++ rest) ≡ ws
unfolding read_words write_words
read_words-write_words [] rest h = refl
read_words-write_words (w ∷ ws) rest (hw, hws) =
    λ t. le_value-le_bytes 8 w (omega arith) t ∷ read_words-write_words ws rest hws t
