-- ===== src/Tests/Serial.antt =====
-- A serialiser of wire values for the examples, and a reader that undoes it.
use pilotfish.Base.{
  ℕ, zero, suc, ◌+◌, ◌≤◌, ◌<◌, ◌≡◌, ◌≢◌, refl, true, false, Option, none, some, [], ◌∷◌, ◌++◌,
  append_assoc, arith, if◌then◌else◌, ◌==◌,
}
use pilotfish.Base.Int.{pos, negsuc}
use pilotfish.Base.Lists.{length, take, drop, take-append, drop-append, length-append}
use pilotfish.Base.Text.{Bytes}
use pilotfish.Float.{nan, inf, neg_inf, finite}
use pilotfish.Platform.{Value, Items, null, boolean, int, float, string, bytes, array, end, item}

unfoldable mutual
  pub write : Value → Bytes
  write null = 0 ∷ []
  write (boolean false) = 1 ∷ []
  write (boolean true) = 2 ∷ []
  write (int (pos n)) = 3 ∷ n ∷ []
  write (int (negsuc n)) = 4 ∷ n ∷ []
  write (float nan) = 5 ∷ []
  write (float inf) = 6 ∷ []
  write (float neg_inf) = 7 ∷ []
  write (float (finite (pos n))) = 8 ∷ n ∷ []
  write (float (finite (negsuc n))) = 9 ∷ n ∷ []
  write (string t) = 10 ∷ length t ∷ t
  write (bytes b) = 11 ∷ length b ∷ b
  write (array vs) = 12 ∷ write_items vs

  pub write_items : Items → Bytes
  write_items end = 0 ∷ []
  write_items (item v vs) = 1 ∷ (write v ++ write_items vs)

abbrev pub Parsed : Type 0 → Type 0
Parsed A = Option (A × Bytes)

abbrev pub then_ : {A B : Type 0} → Parsed A → (A → Bytes → Parsed B) → Parsed B
then_ none f = none
then_ (some (a, rest)) f = f a rest

-- the scalars and the texts
unfoldable pub scalar : ℕ → Bytes → Parsed Value
scalar zero b = some (null, b)
scalar (suc zero) b = some (boolean false, b)
scalar (suc (suc zero)) b = some (boolean true, b)
scalar (suc (suc (suc zero))) (n ∷ b) = some (int (pos n), b)
scalar (suc (suc (suc (suc zero)))) (n ∷ b) = some (int (negsuc n), b)
scalar (suc (suc (suc (suc (suc zero))))) b = some (float nan, b)
scalar (suc (suc (suc (suc (suc (suc zero)))))) b = some (float inf, b)
scalar (suc (suc (suc (suc (suc (suc (suc zero))))))) b = some (float neg_inf, b)
scalar (suc (suc (suc (suc (suc (suc (suc (suc zero)))))))) (n ∷ b) =
    some (float (finite (pos n)), b)
scalar (suc (suc (suc (suc (suc (suc (suc (suc (suc zero))))))))) (n ∷ b) =
    some (float (finite (negsuc n)), b)
scalar (suc (suc (suc (suc (suc (suc (suc (suc (suc (suc zero)))))))))) (n ∷ b) =
    some (string (take n b), drop n b)
scalar (suc (suc (suc (suc (suc (suc (suc (suc (suc (suc (suc zero))))))))))) (n ∷ b) =
    some (bytes (take n b), drop n b)
scalar _ _ = none

unfoldable mutual
  pub parse : ℕ → Bytes → Parsed Value
  parse zero b = none
  parse (suc f) [] = none
  parse (suc f) (tag ∷ b) =
      let inner = then_ (parse_items f b) (λ vs rest. some (array vs, rest)) in
      if tag == 12 then inner else scalar tag b

  pub parse_items : ℕ → Bytes → Parsed Items
  parse_items zero b = none
  parse_items (suc f) [] = none
  parse_items (suc f) (tag ∷ b) =
      let more =
        then_ (parse f b) (λ v rest. then_ (parse_items f rest) (λ vs r. some (item v vs, r))) in
      if tag == 0 then some (end, b) else more

-- the fuel that a value takes
mutual
  pub size : Value → ℕ
  size (array vs) = suc (size_items vs)
  size _ = 1

  pub size_items : Items → ℕ
  size_items end = 1
  size_items (item v vs) = suc (size v + size_items vs)

size-pos : (v : Value) → 0 < size v
unfolding size
size-pos (array vs) = omega arith
size-pos null = omega arith
size-pos _ = omega arith

size_items-pos : (vs : Items) → 0 < size_items vs
unfolding size
size_items-pos end = omega arith
size_items-pos (item v vs) = omega arith

parse-array :
    (k : ℕ) (vs : Items) (rest : Bytes)
    → parse_items k (write_items vs ++ rest) ≡ some (vs, rest)
    → parse (suc k) (write (array vs) ++ rest) ≡ some (array vs, rest)
unfolding parse write
parse-array k vs rest h = rw h

parse_items-end :
    (k : ℕ) (rest : Bytes) → parse_items (suc k) (write_items end ++ rest) ≡ some (end, rest)
unfolding parse write
parse_items-end k rest = refl

parse_items-item :
    (k : ℕ) (v : Value) (vs : Items) (rest : Bytes)
    → parse k (write v ++ (write_items vs ++ rest)) ≡ some (v, write_items vs ++ rest)
    → parse_items k (write_items vs ++ rest) ≡ some (vs, rest)
    → parse_items (suc k) (write_items (item v vs) ++ rest) ≡ some (item v vs, rest)
unfolding parse write
parse_items-item k v vs rest h g = rw (append_assoc (write v), h, g)

parse-scalar :
    (k : ℕ) (v : Value) (rest : Bytes)
    → ((vs : Items) → v ≢ array vs)
    → parse (suc k) (write v ++ rest) ≡ some (v, rest)
unfolding parse write scalar
parse-scalar k null rest h = refl
parse-scalar k (boolean false) rest h = refl
parse-scalar k (boolean true) rest h = refl
parse-scalar k (int (pos n)) rest h = refl
parse-scalar k (int (negsuc n)) rest h = refl
parse-scalar k (float nan) rest h = refl
parse-scalar k (float inf) rest h = refl
parse-scalar k (float neg_inf) rest h = refl
parse-scalar k (float (finite (pos n))) rest h = refl
parse-scalar k (float (finite (negsuc n))) rest h = refl
parse-scalar k (string t) rest h = rw (take-append t rest, drop-append t rest)
parse-scalar k (bytes b) rest h = rw (take-append b rest, drop-append b rest)
parse-scalar k (array vs) rest h = absurd (h vs refl)

mutual
  unfolding size

  pub parse-write :
      (v : Value) (k : ℕ) (rest : Bytes) → size v ≤ k → parse k (write v ++ rest) ≡ some (v, rest)
  parse-write v zero rest h = absurd (omega (arith, size-pos v))
  parse-write (array vs) (suc k) rest h =
      parse-array k vs rest (parse_items-write vs k rest (omega arith))
  parse-write v (suc k) rest h = parse-scalar k v rest (λ vs e. cc)

  pub parse_items-write :
      (vs : Items) (k : ℕ) (rest : Bytes)
      → size_items vs ≤ k
      → parse_items k (write_items vs ++ rest) ≡ some (vs, rest)
  parse_items-write vs zero rest h = absurd (omega (arith, size_items-pos vs))
  parse_items-write end (suc k) rest h = parse_items-end k rest
  parse_items-write (item v vs) (suc k) rest h =
      parse_items-item k v vs rest (parse-write v k (write_items vs ++ rest) (omega arith))
        (parse_items-write vs k rest (omega arith))

-- The fuel is at most the length of the text.
mutual
  unfolding size write

  pub size-le : (v : Value) → size v ≤ length (write v)
  size-le (array vs) = omega (arith, size_items-le vs)
  size-le null = omega arith
  size-le (boolean false) = omega arith
  size-le (boolean true) = omega arith
  size-le (int (pos n)) = omega arith
  size-le (int (negsuc n)) = omega arith
  size-le (float nan) = omega arith
  size-le (float inf) = omega arith
  size-le (float neg_inf) = omega arith
  size-le (float (finite (pos n))) = omega arith
  size-le (float (finite (negsuc n))) = omega arith
  size-le (string t) = omega arith
  size-le (bytes b) = omega arith

  size_items-le : (vs : Items) → size_items vs ≤ length (write_items vs)
  size_items-le end = omega arith
  size_items-le (item v vs) =
      omega (arith, length-append (write v) (write_items vs), size-le v, size_items-le vs)
