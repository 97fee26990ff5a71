-- ===== src/Base/Bytes.antt =====
-- Numbers as byte strings of a fixed width, in both orders.
use Prim.Native.Nat.{ℕ, zero, suc, ◌+◌, ◌*◌, ◌/◌, ◌%◌, ◌^◌, ◌<◌, ◌≤◌}
use mathlib.Core.Path.{◌≡◌, refl, ap, ◌∙◌}
use mathlib.Core.Bool.{Bool, true, false, ◌&&◌, ◌||◌}
use mathlib.Core.List.{List, [], ◌∷◌, ◌++◌, reverse, reverse-cons}
use native.Mathlib.Omega.{arith}
use native.Mathlib.Nat.{pow-suc}
use pool.Base.Tests.{ltb, ◌==◌}
use pool.Base.Lists.{length, length-append, All}

abbrev pub IsByte : ℕ → Type 0
IsByte b = b < 256

-- The number that bytes spell, least significant first.
unfoldable pub from_le_bytes : List ℕ → ℕ
from_le_bytes [] = 0
from_le_bytes (b ∷ bytes) = b + 256 * from_le_bytes bytes

-- The number that bytes spell, most significant first.
unfoldable pub from_be_bytes : List ℕ → ℕ
from_be_bytes [] = 0
from_be_bytes (b ∷ bytes) = b * 256 ^ length bytes + from_be_bytes bytes

-- The lowest `width` bytes of a number, least significant first.
unfoldable pub to_le_bytes : ℕ → ℕ → List ℕ
to_le_bytes zero n = []
to_le_bytes (suc width) n = n % 256 ∷ to_le_bytes width (n / 256)

unfoldable pub to_be_bytes : ℕ → ℕ → List ℕ
to_be_bytes width n = reverse (to_le_bytes width n)

-- The lexicographic order that Rust derives for byte arrays.
pub lex_ltb : List ℕ → List ℕ → Bool
lex_ltb [] [] = false
lex_ltb [] (b ∷ bs) = true
lex_ltb (a ∷ as_) [] = false
lex_ltb (a ∷ as_) (b ∷ bs) = ltb a b || (a == b && lex_ltb as_ bs)

pub length-to_le_bytes : (width n : ℕ) → length (to_le_bytes width n) ≡ width
unfolding to_le_bytes
length-to_le_bytes zero n = refl
length-to_le_bytes (suc width) n = ap suc (length-to_le_bytes width (n / 256))

pub to_le_bytes-IsByte : (width n : ℕ) → All IsByte (to_le_bytes width n)
unfolding to_le_bytes
to_le_bytes-IsByte zero n = tt
to_le_bytes-IsByte (suc width) n = (omega arith, to_le_bytes-IsByte width (n / 256))

pub from_le_bytes-to_le_bytes :
    (width n : ℕ) → n < 256 ^ width → from_le_bytes (to_le_bytes width n) ≡ n
unfolding from_le_bytes to_le_bytes
from_le_bytes-to_le_bytes zero n h = omega arith
from_le_bytes-to_le_bytes (suc width) n h =
    let small : n / 256 < 256 ^ width = omega (arith, pow-suc 256 width) in
    omega (arith, from_le_bytes-to_le_bytes width (n / 256) small)

pub to_le_bytes-from_le_bytes :
    (bytes : List ℕ) → All IsByte bytes → to_le_bytes (length bytes) (from_le_bytes bytes) ≡ bytes
unfolding from_le_bytes to_le_bytes
to_le_bytes-from_le_bytes [] h = refl
to_le_bytes-from_le_bytes (b ∷ bytes) h =
    let low : (b + 256 * from_le_bytes bytes) % 256 ≡ b = omega arith in
    let high : (b + 256 * from_le_bytes bytes) / 256 ≡ from_le_bytes bytes = omega arith in
    rw (low, high, to_le_bytes-from_le_bytes bytes h.1)

pub from_be_bytes-lt :
    (bytes : List ℕ) → All IsByte bytes → from_be_bytes bytes < 256 ^ length bytes
unfolding from_be_bytes
from_be_bytes-lt [] h = omega arith
from_be_bytes-lt (b ∷ bytes) h =
    let rest = from_be_bytes-lt bytes h.1 in
    let scaled : (b + 1) * 256 ^ length bytes ≤ 256 * 256 ^ length bytes = grind arith in
    omega (arith, pow-suc 256 (length bytes))

-- One more byte at the far end is the most significant one.
from_le_bytes-snoc :
    (bytes : List ℕ) (b : ℕ)
    → from_le_bytes (bytes ++ b ∷ []) ≡ from_le_bytes bytes + b * 256 ^ length bytes
unfolding from_le_bytes
from_le_bytes-snoc [] b = omega arith
from_le_bytes-snoc (x ∷ bytes) b =
    let shifted : b * 256 ^ suc (length bytes) ≡ 256 * (b * 256 ^ length bytes) =
      omega (arith, ap (λ (t : ℕ). b * t) (pow-suc 256 (length bytes))) in
    omega (arith, from_le_bytes-snoc bytes b)

pub length-reverse {ℓ} : {A : Type ℓ} (xs : List A) → length (reverse xs) ≡ length xs
length-reverse [] = refl
length-reverse (x ∷ xs) =
    omega
      (arith, ap length (reverse-cons x xs), length-append (reverse xs) (x ∷ []), length-reverse xs)

pub from_le_bytes-reverse : (bytes : List ℕ) → from_le_bytes (reverse bytes) ≡ from_be_bytes bytes
unfolding from_be_bytes from_le_bytes
from_le_bytes-reverse [] = refl
from_le_bytes-reverse (b ∷ bytes) =
    ap from_le_bytes (reverse-cons b bytes)
    ∙ from_le_bytes-snoc (reverse bytes) b
    ∙ rw (length-reverse bytes, from_le_bytes-reverse bytes) (omega arith)

place-lt : (x y place r s : ℕ) → x < y → r < place → x * place + r < y * place + s
place-lt x y place r s h k = let stepped : (x + 1) * place ≤ y * place = grind arith in omega arith

-- Of byte strings of one length the lexicographic order is the order of the numbers.
pub lex_ltb-ltb :
    (a b : List ℕ)
    → length a ≡ length b
    → All IsByte a
    → All IsByte b
    → lex_ltb a b ≡ ltb (from_be_bytes a) (from_be_bytes b)
unfolding lex_ltb from_be_bytes
lex_ltb-ltb [] [] l h k = refl
lex_ltb-ltb [] (y ∷ b) l h k = absurd (omega arith)
lex_ltb-ltb (x ∷ a) [] l h k = absurd (omega arith)
lex_ltb-ltb (x ∷ a) (y ∷ b) l h k =
    let same : length b ≡ length a = omega arith in
    rw (same) (
      ground (
        arith,
        lex_ltb-ltb a b (omega arith) h.1 k.1,
        place-lt x y (256 ^ length a) (from_be_bytes a) (from_be_bytes b),
        place-lt y x (256 ^ length a) (from_be_bytes b) (from_be_bytes a),
        from_be_bytes-lt a h.1,
        rw same at (from_be_bytes-lt b k.1),
      ))
