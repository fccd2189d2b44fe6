-- ===== src/Sources/Reddit/Token.antt =====
-- A token that is handed out is live.
use if_sos_beacon.Base.{Text, ◌=ᵗ◌, =ᵗ_iff, ◌==◌, ◌≡◌, ◌≢◌, ◌||◌, [], arith, Bool-cases, inl, inr}
use mathlib.Core.Path.{subst}
use if_sos_beacon.Base.Int.{
  ℤ, pos, negsuc, ◌+ℤ◌, ◌-ℤ◌, ◌≤ℤ◌, ltb_ℤ, wrap64, wrap64_fits, wrap64-InInt64, InInt64, +ℤ_parts,
  -ℤ_parts,
}
use if_sos_beacon.Base.Errors.{Result, ok, err}
use if_sos_beacon.Core.{Time}
use if_sos_beacon.Sources.Reddit.{
  Reddit, TokenResponse, Reply, Api, token_skew, lifetime, duration_of_seconds, store_token,
  read_token, exchanged, new_token, access_token,
}

-- The clock and the exchange never go back in time. `at` is the time in a state of the world.
pub record ApiLaws {W : Type 0} (a : Api W) (at : W → Time) : Type 0 where
  pub forward : (w : W) → at w ≤ℤ (a.now w).0
  pub read : (w : W) → (a.now w).0 ≤ℤ at (a.now w).1
  pub exchanging : (id secret : Text) (w : W) → at w ≤ℤ at (a.exchange id secret w).1

-- What holds of a token that is handed out at a time.
pub record Live (t : Text) (r : Reddit) (now : Time) : Type 0 where
  pub named : t ≢ []
  pub cached : r.token ≡ t
  pub expires : now +ℤ pos 1 ≤ℤ r.token_till

duration_of_seconds-InInt64 : (n : ℤ) → InInt64 (duration_of_seconds n)
unfolding duration_of_seconds
duration_of_seconds-InInt64 (pos n) = wrap64-InInt64 _
duration_of_seconds-InInt64 (negsuc n) = wrap64-InInt64 _

-- Whatever the endpoint says of the expiry, what is left without the skew is positive.
lifetime_left : (n : ℤ) → pos 1 ≤ℤ wrap64 (lifetime n -ℤ token_skew)
unfolding lifetime
lifetime_left n =
    let d = duration_of_seconds n in
    let fits = duration_of_seconds-InInt64 n in
    elim (Bool-cases (ltb_ℤ token_skew d)) [
      | inl long ↦
          let exact = wrap64_fits (d -ℤ token_skew) (
            ground (arith, long, fits, -ℤ_parts d token_skew),
            ground (arith, long, fits, -ℤ_parts d token_skew),
          ) in
          rw (long, exact) (ground (arith, long, -ℤ_parts d token_skew))
      | inr short ↦ rw short (unfold wrap64 ◌-ℤ◌ in omega arith)
    ]

module _ {W : Type 0} (a : Api W) (at : W → Time) (laws : ApiLaws a at) where
  store_token-Live :
      (tr : TokenResponse) (r : Reddit) (w : W) (t : Text) (now : Time)
      → tr.access_token ≢ []
      → now ≤ℤ at w
      → (store_token a tr r w).0.0 ≡ ok t
      → Live t (store_token a tr r w).0.1 now
  unfolding store_token
  store_token-Live tr r w t now real le h =
      let left = wrap64 (lifetime tr.expires_in -ℤ token_skew) in
      let same : tr.access_token ≡ t = ground (arith, h) in
      record {
        named = subst (λ u. u ≢ []) same real;
        cached = same;
        expires = omega (
          arith,
          le,
          laws.forward w,
          lifetime_left tr.expires_in,
          +ℤ_parts (a.now w).0 left,
          +ℤ_parts now (pos 1),
        );
      }

  read_token-Live :
      (b : Result TokenResponse) (r : Reddit) (w : W) (t : Text) (now : Time)
      → now ≤ℤ at w
      → (read_token a b r w).0.0 ≡ ok t
      → Live t (read_token a b r w).0.1 now
  unfolding read_token
  read_token-Live (err e) r w t now le h = absurd (ground arith)
  read_token-Live (ok tr) r w t now le h = elim (Bool-cases (tr.access_token =ᵗ [])) [
    | inl blank ↦ absurd (ground (arith, rw blank at h))
    | inr real ↦ rw real (
        store_token-Live tr r w t now (ground (arith, real, =ᵗ_iff tr.access_token [])) le
          (rw real at h))
  ]

  exchanged-Live :
      (x : Result (Reply TokenResponse)) (r : Reddit) (w : W) (t : Text) (now : Time)
      → now ≤ℤ at w
      → (exchanged a (x, w) r).0.0 ≡ ok t
      → Live t (exchanged a (x, w) r).0.1 now
  unfolding exchanged
  exchanged-Live (err e) r w t now le h = absurd (ground arith)
  exchanged-Live (ok reply) r w t now le h = elim (Bool-cases (reply.status == 200)) [
    | inl fine ↦ rw fine (read_token-Live reply.body r w t now le (rw fine at h))
    | inr bad ↦ absurd (ground (arith, rw bad at h))
  ]

  new_token-Live :
      (r : Reddit) (w : W) (t : Text) (now : Time)
      → now ≤ℤ at w
      → (new_token a r w).0.0 ≡ ok t
      → Live t (new_token a r w).0.1 now
  unfolding new_token
  new_token-Live r w t now le h = elim (Bool-cases (r.client_id =ᵗ [] || r.client_secret =ᵗ [])) [
    | inl missing ↦ absurd (ground (arith, rw missing at h))
    | inr there ↦
        let answer = a.exchange r.client_id r.client_secret w in
        rw there (
          exchanged-Live answer.0 r answer.1 t now
            (omega (arith, le, laws.exchanging r.client_id r.client_secret w)) (rw there at h))
  ]

  -- A token that accessToken hands out is not empty, it is the one that is cached from then on, and it
  -- expires after the time of the call, whatever expiry the endpoint gave. The clock and the exchange
  -- never go back in time.
  pub access_token-Live :
      (r : Reddit) (w : W) (t : Text)
      → (access_token a r w).0.0 ≡ ok t
      → Live t (access_token a r w).0.1 (at w)
  unfolding access_token
  access_token-Live r w t h = elim (Bool-cases (r.token =ᵗ [])) [
    | inl blank ↦ rw blank (new_token-Live r w t (at w) (omega arith) (rw blank at h))
    | inr held ↦ elim (Bool-cases (ltb_ℤ (a.now w).0 r.token_till)) [
      | inl live ↦
          let same : r.token ≡ t = ground (arith, rw (held, live) at h) in
          rw (held, live)
            (record {
              named = subst (λ u. u ≢ []) same (ground (arith, held, =ᵗ_iff r.token []));
              cached = same;
              expires = ground (arith, live, laws.forward w, +ℤ_parts (at w) (pos 1));
            })
      | inr old ↦
          rw (held, old)
            (new_token-Live r (a.now w).1 t (at w) (omega (arith, laws.forward w, laws.read w))
              (rw (held, old) at h))
    ]
  ]
