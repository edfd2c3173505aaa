-- ===== src/Session/Buffer.antt =====
-- Texts in the buffer of a session.
use cpp_tricks.Prelude.{
  ℕ, zero, suc, ◌+◌, ◌-◌, ◌≤◌, ◌<◌, ◌≡◌, refl, sym, ap, ◌∙◌, false, [], ◌∷◌, ◌++◌, append_assoc,
  take, drop, length, length-append, length-take, length-drop, take-append, drop-append, arith, ltb,
  if◌then◌else◌,
}
use cpp_tricks.Prelude.Text.{Text, is_empty}
use cpp_tricks.Session.Stage.{overwrite, zeros}

-- Two lists that begin with parts of one length.
pub append_split : (a b c d : Text) → length a ≡ length c → a ++ b ≡ c ++ d → (a ≡ c) × (b ≡ d)
append_split a b c d h e = (
  sym (take-append a b) ∙ ap (take (length a)) e ∙ ap (λ n. take n (c ++ d)) h ∙ take-append c d,
  sym (drop-append a b) ∙ ap (drop (length a)) e ∙ ap (λ n. drop n (c ++ d)) h ∙ drop-append c d,
)

-- A list that begins with a part of another.
pub split_prefix :
    (a b c d : Text)
    → length a ≤ length c
    → a ++ b ≡ c ++ d
    → (c ≡ a ++ drop (length a) c) × (b ≡ drop (length a) c ++ d)
split_prefix [] b c d h e = (refl, e)
split_prefix (x ∷ a) b [] d h e = absurd (omega arith)
split_prefix (x ∷ a) b (y ∷ c) d h e =
    let r = split_prefix a b c d (omega arith) (ap (drop 1) e) in (cc (e, r.0), r.1)

pub not_empty : (s : Text) → 0 < length s → is_empty s ≡ false
not_empty [] h = absurd (omega arith)
not_empty (c ∷ s) h = refl

pub length-overwrite :
    (off : ℕ) (b buf : Text)
    → off + length b ≤ length buf
    → length (overwrite off b buf) ≡ length buf
length-overwrite off b buf h = omega (
  arith,
  length-append {0} (take off buf) (b ++ drop (off + length b) buf),
  length-append {0} b (drop (off + length b) buf),
  length-take {0} off buf (omega arith),
  length-drop {0} (off + length b) buf,
)

pub take-overwrite :
    (off : ℕ) (b buf : Text)
    → off + length b ≤ length buf
    → take (off + length b) (overwrite off b buf) ≡ take off buf ++ b
take-overwrite off b buf h =
    let n : off + length b ≡ length (take off buf ++ b) =
      omega (arith, length-append {0} (take off buf) b, length-take {0} off buf (omega arith)) in
    let rest = drop (off + length b) buf in
    ap (λ k. take k (overwrite off b buf)) n
    ∙ ap (take (length (take off buf ++ b))) (sym (append_assoc (take off buf) b rest))
    ∙ take-append (take off buf ++ b) rest

abbrev pub resized : ℕ → Text → Text
resized size buf = if ltb (length buf) size then buf ++ zeros (size - length buf) else buf

pub length-zeros : (n : ℕ) → length (zeros n) ≡ n
length-zeros zero = refl
length-zeros (suc n) = omega (arith, length-zeros n)

pub length-resized : (size : ℕ) (buf : Text) → size ≤ length (resized size buf)
length-resized size buf =
    ground
      (arith, length-append {0} buf (zeros (size - length buf)), length-zeros (size - length buf))

pub grown : (a b c d : Text) {y : Text} → d ≡ b ++ c → y ≡ a ++ b → y ++ c ≡ a ++ d
grown a b c d e h = ap (λ z. z ++ c) h ∙ append_assoc a b c ∙ ap (λ z. a ++ z) (sym e)
