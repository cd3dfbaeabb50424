-- ===== src/Session/Toy.antt =====
-- Toy functions in place of the libraries that the sessions use, with the laws that are asked of these.
use mathlib.Core.List.{reverse, reverse-reverse}
use warnly.Base.{
  ℕ, ◌+◌, ◌-◌, ◌*◌, ◌%◌, ◌≡◌, ◌≢◌, refl, ap, ◌∙◌, Bool, true, false, Option, none, some, [], ◌∷◌,
  ◌++◌, if◌then◌else◌, ◌==◌, Bytes, length, length-reverse, contains_byte, arith,
}
use warnly.Base.Int.{ℤ, pos, negsuc}
use warnly.Session.Runtime.{Runtime, Laws, pipe}

abbrev pub checksum : Bytes → ℕ
checksum [] = 7
checksum (x ∷ xs) = (x + 31 * checksum xs) % 256

abbrev pub shift : Bytes → Bytes
shift [] = []
shift (x ∷ xs) = (x + 200) ∷ shift xs

abbrev pub unshift : Bytes → Bytes
unshift [] = []
unshift (x ∷ xs) = (x - 200) ∷ unshift xs

abbrev pub format : ℤ → Bytes
format (pos n) = (n + 200) ∷ []
format (negsuc n) = 0 ∷ (n + 200) ∷ []

abbrev pub parse : Bytes → Option ℤ
parse [] = none
parse (x ∷ []) = some (pos (x - 200))
parse (x ∷ y ∷ ys) = some (negsuc (y - 200))

abbrev pub read_with : {V : Type 0} → (Bytes → V) → Bytes → V → Bool × V
read_with read [] dst = (false, dst)
read_with read (x ∷ xs) dst = (true, read xs)

abbrev pub toy_runtime : {V : Type 0} → (V → Bytes) → (Bytes → V) → Runtime V
toy_runtime write read = record {
  serialize = λ v. some (1 ∷ write v);
  deserialize = read_with read;
  hmac = λ key message. checksum (key ++ message) ∷ [];
  base64 = shift;
  unbase64 = λ b. some (unshift b);
  format_int = format;
  parse_int = parse;
  new_cipher = λ key. if length key == 4 then some key else none;
  block_size = λ k. 2;
  ctr = λ k iv b. reverse b;
}

unshift-shift : (b : Bytes) → unshift (shift b) ≡ b
unshift-shift [] = refl
unshift-shift (x ∷ xs) = ground (arith, unshift-shift xs)

shift_plain : (b : Bytes) → contains_byte pipe (shift b) ≡ false
shift_plain [] = refl
shift_plain (x ∷ xs) = ground (arith, shift_plain xs)

format_plain : (z : ℤ) → contains_byte pipe (format z) ≡ false
format_plain (pos n) = ground arith
format_plain (negsuc n) = ground arith

module _ {V : Type 0} (write : V → Bytes) (read : Bytes → V)
    (read-write : (v : V) → read (write v) ≡ v) where
  read-written :
      (v dst : V) (b : Bytes) → some (1 ∷ write v) ≡ some b → read_with read b dst ≡ (true, v)
  read-written v dst [] h = cc
  read-written v dst (x ∷ xs) h = ap (λ w. (true, w)) (ap read (same xs h) ∙ read-write v)
    where
      same : (xs : Bytes) → some (1 ∷ write v) ≡ some (x ∷ xs) → xs ≡ write v
      same xs h = cc

  written_nonempty : (v : V) (b : Bytes) → some (1 ∷ write v) ≡ some b → b ≢ []
  written_nonempty v [] h e = cc
  written_nonempty v (x ∷ xs) h e = cc

  pub toy_runtime-Laws : Laws (toy_runtime write read)
  toy_runtime-Laws = record {
    decodes = read-written;
    nonempty = written_nonempty;
    unbase64-base64 = λ b. ap some (unshift-shift b);
    base64_plain = shift_plain;
    parse-format = λ n h. ap (λ m. some (pos m)) (omega arith);
    format_plain = format_plain;
    ctr-ctr = λ k iv b. reverse-reverse b;
    length-ctr = λ k iv b. length-reverse b;
  }
