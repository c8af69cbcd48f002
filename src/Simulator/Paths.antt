-- ===== src/Simulator/Paths.antt =====
-- Every thread has a socket of its own.
use mathlib.Core.List.{append_cancel_left}
use mathlib.Core.Option.{some-injective}
use native.Mathlib.Nat.{pow-suc}
use toy_softswitch.Prelude.{
  ℕ, zero, suc, ◌+◌, ◌/◌, ◌%◌, ◌^◌, ◌<◌, ◌≤◌, ◌≡◌, refl, ap, sym, ◌∙◌, List, [], ◌∷◌, ◌++◌, arith,
  length, take, length-append, ◌&&◌, ◌==◌, not, true, false, Bool, some,
}
use toy_softswitch.Simulator.{
  hex_digit, hex_digits, addr_template, formatted, full_path, socket_path,
}

hex_digit-inj : (a b : ℕ) → a < 16 → b < 16 → hex_digit a ≡ hex_digit b → a ≡ b
hex_digit-inj a b h k e = ground arith

length-hex_digits : (n x : ℕ) → length (hex_digits n x) ≡ n
length-hex_digits zero x = refl
length-hex_digits (suc n) x = omega (
  arith,
  length-append (hex_digits n (x / 16)) (hex_digit (x % 16) ∷ []),
  length-hex_digits n (x / 16),
)

snoc-inj : (xs ys : List ℕ) (a b : ℕ) → xs ++ a ∷ [] ≡ ys ++ b ∷ [] → (xs ≡ ys) × (a ≡ b)
snoc-inj [] [] a b e = (refl, cc)
snoc-inj [] (y ∷ []) a b e = absurd cc
snoc-inj [] (y ∷ z ∷ ys) a b e = absurd cc
snoc-inj (x ∷ []) [] a b e = absurd cc
snoc-inj (x ∷ z ∷ xs) [] a b e = absurd cc
snoc-inj (x ∷ xs) (y ∷ ys) a b e = let (same, last) = snoc-inj xs ys a b cc in (cc, last)

shorter : (n x : ℕ) → x < 16 ^ suc n → x / 16 < 16 ^ n
shorter n x h = let p = pow-suc 16 n in omega (arith, p)

below : (x : ℕ) → x % 16 < 16
below x = omega arith

hex_digits-inj : (n x y : ℕ) → x < 16 ^ n → y < 16 ^ n → hex_digits n x ≡ hex_digits n y → x ≡ y
hex_digits-inj zero x y h k e = omega arith
hex_digits-inj (suc n) x y h k e =
    let (front, last) = snoc-inj _ _ _ _ e in
    let low = hex_digit-inj (x % 16) (y % 16) (below x) (below y) last in
    let high = hex_digits-inj n (x / 16) (y / 16) (shorter n x h) (shorter n y k) front in
    omega (arith, low, high)

pub take_all : (n : ℕ) (xs : List ℕ) → length xs ≤ n → take n xs ≡ xs
take_all zero [] h = refl
take_all zero (x ∷ xs) h = absurd (omega arith)
take_all (suc n) [] h = refl
take_all (suc n) (x ∷ xs) h = ap (λ l. x ∷ l) (take_all n xs (omega arith))

-- A directory whose name is no conversion when it is printed as a format.
abbrev pub is_plain : List ℕ → Bool
is_plain [] = true
is_plain (c ∷ cs) = not (c == 37) && is_plain cs

-- The path of a thread's socket.
abbrev pub path_in : List ℕ → ℕ → List ℕ
path_in dir thread = dir ++ 47 ∷ hex_digits 8 thread

formatted-plain :
    (dir : List ℕ) (thread : ℕ)
    → is_plain dir ≡ true
    → formatted (dir ++ 47 ∷ 37 ∷ 48 ∷ 56 ∷ 120 ∷ []) thread ≡ some (path_in dir thread)
unfolding formatted
formatted-plain [] thread h = refl
formatted-plain (c ∷ cs) thread h =
    let (plain, rest) : (c == 37 ≡ false) × (is_plain cs ≡ true) = ground arith in
    rw (plain, formatted-plain cs thread rest) refl

pub length-path_in : (dir : List ℕ) (thread : ℕ) → length (path_in dir thread) ≡ length dir + 9
length-path_in dir thread =
    omega (arith, length-append dir (47 ∷ hex_digits 8 thread), length-hex_digits 8 thread)

pub full_path_lem :
    (dir : List ℕ) (thread : ℕ)
    → is_plain dir ≡ true
    → length dir + 9 < 107
    → full_path dir thread ≡ some (path_in dir thread)
unfolding full_path addr_template
full_path_lem dir thread plain h =
    let size = length-append dir (47 ∷ 37 ∷ 48 ∷ 56 ∷ 120 ∷ []) in
    ap (λ t. formatted t thread)
      (take_all 127 (dir ++ 47 ∷ 37 ∷ 48 ∷ 56 ∷ 120 ∷ []) (omega (arith, size)))
    ∙ formatted-plain dir thread plain

pub socket_path_lem :
    (dir : List ℕ) (thread : ℕ)
    → is_plain dir ≡ true
    → length dir + 9 < 107
    → socket_path dir thread ≡ some (path_in dir thread)
unfolding socket_path
socket_path_lem dir thread plain h =
    rw (full_path_lem dir thread plain h)
      (ap some (take_all 106 (path_in dir thread) (omega (arith, length-path_in dir thread))))

-- Two threads with 32-bit ids have the same socket only if they are the same thread, in a socket
-- directory whose path has no `%` and is shorter than 98.
socket_path-inj :
    (dir : List ℕ) (a b : ℕ)
    → is_plain dir ≡ true
    → length dir + 9 < 107
    → a < 2 ^ 32
    → b < 2 ^ 32
    → socket_path dir a ≡ socket_path dir b
    → a ≡ b
socket_path-inj dir a b plain short ha hb e =
    let whole : some (path_in dir a) ≡ some (path_in dir b) =
      sym (socket_path_lem dir a plain short) ∙ e ∙ socket_path_lem dir b plain short in
    let tail = append_cancel_left dir _ _ (some-injective _ _ whole) in
    hex_digits-inj 8 a b (omega arith) (omega arith) cc
