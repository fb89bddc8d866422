-- ===== src/Base/Text.antt =====
-- Texts as lists of code points, so that a key built by an f-string computes as far as its
-- literal prefix. `str` is Python's decimal `str(n)`.
use Prim.Native.Nat.{ℕ, zero, suc, ◌+◌, ◌-◌, ◌*◌, ◌/◌, ◌%◌, ◌<◌}
use Prim.Native.Char.{code}
use Prim.Native.String.{String}
use mathlib.Core.Path.{◌≡◌, refl, ◌∙◌, sym, ap}
use mathlib.Core.Logic.{◌↔◌, ◌≢◌}
use mathlib.Core.Bool.{Bool, true, false, ◌&&◌}
use mathlib.Core.List.{List, [], ◌∷◌, ◌++◌}
use native.Mathlib.Omega.{arith}
use remote_connect_backend.Base.Tests.{ltb, ◌==◌, if◌then◌else◌}

abbrev pub Text : Type 0
Text = List ℕ

abbrev pub codes : String → Text
codes String.[] = []
codes (String.◌∷◌ c s) = code c ∷ codes s

infix 50 ◌≐◌
abbrev pub ◌≐◌ : Text → Text → Bool
[] ≐ [] = true
[] ≐ (_ ∷ _) = false
(_ ∷ _) ≐ [] = false
(x ∷ xs) ≐ (y ∷ ys) = x == y && xs ≐ ys

pub ≐_self : (a : Text) → (a ≐ a) ≡ true
≐_self [] = refl
≐_self (x ∷ xs) = ground (arith, ≐_self xs)

pub eq_of-≐ : (a b : Text) → (a ≐ b) ≡ true → a ≡ b
eq_of-≐ [] [] h = refl
eq_of-≐ [] (y ∷ ys) h = cc
eq_of-≐ (x ∷ xs) [] h = cc
eq_of-≐ (x ∷ xs) (y ∷ ys) h = ground (arith, eq_of-≐ xs ys)

pub ≐_iff : (a b : Text) → ((a ≐ b) ≡ true) ↔ (a ≡ b)
≐_iff a b = (eq_of-≐ a b, λ e. rw e (≐_self b))

pub ≐_ne : (a b : Text) → a ≢ b → (a ≐ b) ≡ false
≐_ne a b h = ground (arith, eq_of-≐ a b)

pub ≐_comm : (a b : Text) → (a ≐ b) ≡ (b ≐ a)
≐_comm a b = ground (arith, eq_of-≐ a b, eq_of-≐ b a, ≐_self a)

-- `x in xs` for a list or a set of texts.
abbrev pub contains : Text → List Text → Bool
contains x [] = false
contains x (y ∷ ys) = if x ≐ y then true else contains x ys

-- The digits of `n`, the last one first cut off; the fuel is `n + 1`.
digits : ℕ → ℕ → Text
digits zero n = []
digits (suc f) n =
    let higher = digits f (n / 10) ++ (48 + n % 10) ∷ [] in
    if ltb n 10 then (48 + n) ∷ [] else higher

unfoldable pub str : ℕ → Text
unfolding digits
str n = digits (suc n) n

-- Reading decimal digits back.
value : ℕ → Text → ℕ
value acc [] = acc
value acc (c ∷ cs) = value (acc * 10 + (c - 48)) cs

value-append :
    (acc : ℕ) (cs : Text) (c : ℕ) → value acc (cs ++ c ∷ []) ≡ value acc cs * 10 + (c - 48)
unfolding value
value-append acc [] c = refl
value-append acc (d ∷ cs) c = value-append (acc * 10 + (d - 48)) cs c

value-digits : (f n : ℕ) → n < f → value 0 (digits f n) ≡ n
unfolding digits value
value-digits zero n h = absurd (omega arith)
value-digits (suc f) n h =
    ground (arith, value-append 0 (digits f (n / 10)) (48 + n % 10), value-digits f (n / 10))

value-str : (n : ℕ) → value 0 (str n) ≡ n
unfolding str
value-str n = value-digits (suc n) n (omega arith)

-- Different numbers print differently.
pub str-injective : (a b : ℕ) → str a ≡ str b → a ≡ b
str-injective a b e = sym (value-str a) ∙ ap (value 0) e ∙ value-str b
