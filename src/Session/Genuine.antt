-- ===== src/Session/Genuine.antt =====
-- What a cookie must be for `Decode` to accept it.
use warnly.Base.{
  ℕ, ◌-◌, ◌≡◌, subst, sym, ap, ap₂, ◌∙◌, true, Option, none, some, [], ◌∷◌, ◌++◌, Bytes, length,
  take, contains_byte, before_first, after_first, bytes_eq_sound, arith, Bool-cases, Option-cases,
  Result-cases, inl, inr, Result, ok, err, or_err, >>?-eq-ok, or_err-eq-ok,
}
use warnly.Base.Int.{ℤ}
use warnly.Session.Runtime.{Runtime, pipe}
use warnly.Session.RoundTrip.{take-signed}
use warnly.Session.Cookie.{
  Error, invalid_hmac, base64_decode, invalid_timestamp, value_too_long, SecureCookie,
  verify_timestamp, split3, decrypt_if, decode, verify_mac, check_length, split_and_verify, opened,
  deserialize,
}

cut_first :
    (c : ℕ) (s : Bytes) → contains_byte c s ≡ true → before_first c s ++ c ∷ after_first c s ≡ s
cut_first c [] h = cc
cut_first c (x ∷ s) h = ground (arith, cut_first c s)

none-some : {A : Type 0} {a : A} → ◌≡◌ {A = Option A} none (some a) → ⊥
none-some h = cc

some_eq : {A : Type 0} {a b : A} → ◌≡◌ {A = Option A} (some a) (some b) → a ≡ b
some_eq h = cc

ok_eq : {A : Type 0} {a b : A} → ◌≡◌ {A = Result Error A} (ok a) (ok b) → a ≡ b
ok_eq h = cc

err_ok :
    {A B : Type 0} {e : Error} {a : A} {x y : B}
    → ◌≡◌ {A = Result Error A × B} (err e, x) (ok a, y)
    → ⊥
err_ok h = cc (ap (λ r. r.0) h)

ok_tt : {m : Result Error (Unit {0})} (u : Unit {0}) → m ≡ ok u → m ≡ ok tt
ok_tt tt h = h

-- The three parts, joined again, are the text.
split3-parts :
    (b : Bytes) (p : Bytes × Bytes × Bytes)
    → split3 b ≡ some p
    → p.0 ++ pipe ∷ (p.1 ++ pipe ∷ p.2) ≡ b
unfolding split3
split3-parts b p h = elim (Bool-cases (contains_byte pipe b)) [
  | inr lacks ↦ absurd (none-some (rw (lacks, split3) at h))
  | inl first ↦ elim (Bool-cases (contains_byte pipe (after_first pipe b))) [
    | inr lacks ↦ absurd (none-some (rw (first, lacks, split3) at h))
    | inl second ↦
        let cut : ◌≡◌ {A = Bytes × Bytes × Bytes}
            (
              before_first pipe b,
              before_first pipe (after_first pipe b),
              after_first pipe (after_first pipe b),
            )
            p =
          some_eq (rw (first, second, split3) at h) in
        subst (λ q. q.0 ++ pipe ∷ (q.1 ++ pipe ∷ q.2) ≡ b) cut
          (rw (cut_first pipe (after_first pipe b) second) (cut_first pipe b first))
  ]
]

module _ {V : Type 0} (rt : Runtime V) where
  -- A cookie's parts: the MAC is the one of the name, the date and the payload under the codec's
  -- key, the date is in the codec's window, and the payload holds the text `plain`.
  pub record Genuine (s : SecureCookie) (name cookie : Bytes) (now : ℤ) (key plain : Bytes)
      : Type 0 where
    pub date : Bytes
    pub payload : Bytes
    pub stamp : ℤ
    pub enclosed : Bytes
    pub signed :
        rt.unbase64 cookie
        ≡ some (
            date
            ++ pipe ∷ (payload ++ pipe ∷ rt.hmac key (name ++ pipe ∷ (date ++ pipe ∷ payload))))
    pub stamped : rt.parse_int date ≡ some stamp
    pub in_window : verify_timestamp stamp now s.min_age s.max_age ≡ ok tt
    pub holds : rt.unbase64 payload ≡ some enclosed
    pub decrypted : decrypt_if rt s.block enclosed ≡ ok plain

  verify_mac-eq :
      (key value mac : Bytes) → verify_mac rt key value mac ≡ ok tt → mac ≡ rt.hmac key value
  unfolding verify_mac
  verify_mac-eq key value mac h = ground (arith, bytes_eq_sound mac (rt.hmac key value))

  take-parts :
      (b : Bytes) (p : Bytes × Bytes × Bytes)
      → p.0 ++ pipe ∷ (p.1 ++ pipe ∷ p.2) ≡ b
      → take (length b - length p.2 - 1) b ≡ p.0 ++ pipe ∷ p.1
  take-parts b p h = rw (← h) (take-signed p.0 p.1 p.2)

  split_and_verify-signed :
      (b name key : Bytes) (q : Bytes × Bytes)
      → split_and_verify rt b name key ≡ ok q
      → q.0 ++ pipe ∷ (q.1 ++ pipe ∷ rt.hmac key (name ++ pipe ∷ (q.0 ++ pipe ∷ q.1))) ≡ b
  unfolding split_and_verify
  split_and_verify-signed b name key q h =
      let (p, hp, h1) = >>?-eq-ok (or_err (split3 b) invalid_hmac) _ h in
      let (u, hm, h2) =
        >>?-eq-ok (verify_mac rt key (name ++ (pipe ∷ take (length b - length p.2 - 1) b)) p.2) _
          h1 in
      let parts = split3-parts b p (or_err-eq-ok _ invalid_hmac hp) in
      let e = verify_mac-eq key _ p.2 (ok_tt u hm) in
      let mac : p.2 ≡ rt.hmac key (name ++ pipe ∷ (p.0 ++ pipe ∷ p.1)) =
        rw (take-parts b p parts) at e in
      subst
        (λ r. r.0 ++ pipe ∷ (r.1 ++ pipe ∷ rt.hmac key (name ++ pipe ∷ (r.0 ++ pipe ∷ r.1))) ≡ b)
        (ok_eq h2) (rw (← mac) parts)

  opened-Genuine :
      (s : SecureCookie) (name cookie : Bytes) (now : ℤ) (key plain : Bytes)
      → opened rt s name cookie now key ≡ ok plain
      → Genuine s name cookie now key plain
  unfolding opened
  opened-Genuine s name cookie now key plain h =
      let (_, _, h1) = >>?-eq-ok (check_length s.max_length cookie value_too_long) _ h in
      let (b, hb, h2) = >>?-eq-ok (or_err (rt.unbase64 cookie) base64_decode) _ h1 in
      let (q, hq, h3) = >>?-eq-ok (split_and_verify rt b name key) _ h2 in
      let (t, ht, h4) = >>?-eq-ok (or_err (rt.parse_int q.0) invalid_timestamp) _ h3 in
      let (u, hv, h5) = >>?-eq-ok (verify_timestamp t now s.min_age s.max_age) _ h4 in
      let (c, hc, h6) = >>?-eq-ok (or_err (rt.unbase64 q.1) base64_decode) _ h5 in
      record {
        date = q.0;
        payload = q.1;
        stamp = t;
        enclosed = c;
        signed =
            or_err-eq-ok _ base64_decode hb
            ∙ ap some (sym (split_and_verify-signed b name key q hq));
        stamped = or_err-eq-ok _ invalid_timestamp ht;
        in_window = ok_tt u hv;
        holds = or_err-eq-ok _ base64_decode hc;
        decrypted = h6;
      }

  deserialize_done :
      (b : Bytes) (dst v : V) → deserialize rt b dst ≡ (ok tt, v) → rt.deserialize b dst ≡ (true, v)
  unfolding deserialize
  deserialize_done b dst v h = elim (Bool-cases (rt.deserialize b dst).0) [
    | inl done ↦ ap₂ (λ x y. (x, y)) done (ap (λ r. r.1) h)
    | inr failed ↦ absurd (err_ok (rw failed at h))
  ]

  -- A cookie is accepted only under a codec that has a key and whose parts are genuine for the
  -- name and the present time under that key; the destination is then what the serialiser makes
  -- of the text that the payload holds.
  pub decode-Genuine :
      (s : SecureCookie) (name cookie : Bytes) (now : ℤ) (dst v : V)
      → decode rt s name cookie now dst ≡ (ok tt, v)
      → (key : Bytes) × (plain : Bytes) × (s.hash_key ≡ some key)
        × Genuine s name cookie now key plain
        × (rt.deserialize plain dst ≡ (true, v))
  unfolding decode
  decode-Genuine s name cookie now dst v h = elim (Option-cases s.err_field) [
    | inr (e, broken) ↦ absurd (err_ok (rw (broken, decode) at h))
    | inl sound ↦ elim (Option-cases s.hash_key) [
      | inl unkeyed ↦ absurd (err_ok (rw (sound, unkeyed, decode) at h))
      | inr (key, keyed) ↦ elim (Result-cases (opened rt s name cookie now key)) [
        | inr (e, refused) ↦ absurd (err_ok (rw (sound, keyed, refused, decode) at h))
        | inl (plain, opens) ↦
            let same = deserialize_done plain dst v (rw (sound, keyed, opens, decode) at h) in
            (key, plain, keyed, opened-Genuine s name cookie now key plain opens, same)
      ]
    ]
  ]
