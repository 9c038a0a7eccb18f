-- ===== src/Notify/Client/Ladder.antt =====
-- internal/notify/client.go: when the ladder of attempts delivers, and how long it can last.
use clickhouse_ruler.Base.{
  ℕ, zero, suc, max, negsuc, [], ◌∷◌, ◌≤◌, ◌<◌, ltb, leb, Bool, ℤ, nat_beq, ◌≡◌, refl, sym, ◌∙◌,
  ◌↔◌, ◌⊎◌, inl, inr, true, false, String, Option, none, some, Duration, pos, mul_int64, arith,
  Bool-cases, Option-cases,
}
use clickhouse_ruler.Text.{concat}
use clickhouse_ruler.Notify.Client.{
  Answer, no_request, transport_failure, response, PostError, attempts_left, send, post, sending,
  attempts_from,
}

-- The attempts from `attempt` on deliver: each of the attempts before the one that is accepted, of `left` more at most,
-- fails in a way worth repeating, and the context lives through the wait after it.
abbrev pub Delivers : (ℕ → Answer) → (ℕ → Option String) → ℕ → ℕ → Type 0
Delivers answer done zero attempt = post (answer attempt) ≡ none
Delivers answer done (suc left) attempt =
    (post (answer attempt) ≡ none)
    ⊎ (((e : PostError) × ((post (answer attempt) ≡ some e) × (e.retryable ≡ true)))
        × ((done attempt ≡ none) × Delivers answer done left (suc attempt)))

module _ (answer : ℕ → Answer) (done : ℕ → Option String) where
  accepted :
      (left attempt : ℕ) (backoff : Duration)
      → post (answer attempt) ≡ none
      → (attempts_from answer done left attempt backoff).error ≡ none
  unfolding attempts_from
  accepted zero attempt backoff p = rw (attempts_from, p) refl
  accepted (suc left) attempt backoff p = rw (attempts_from, p) refl

  last_refused :
      (attempt : ℕ) (backoff : Duration) (e : PostError)
      → post (answer attempt) ≡ some e
      → (attempts_from answer done zero attempt backoff).error ≡ some (sending e)
  unfolding attempts_from
  last_refused attempt backoff e p = rw (attempts_from, p) refl

  refused :
      (left attempt : ℕ) (backoff : Duration) (e : PostError)
      → post (answer attempt) ≡ some e
      → e.retryable ≡ false
      → (attempts_from answer done (suc left) attempt backoff).error ≡ some (sending e)
  unfolding attempts_from
  refused left attempt backoff e p r = rw (attempts_from, p, r) refl

  ended :
      (left attempt : ℕ) (backoff : Duration) (e : PostError) (cause : String)
      → post (answer attempt) ≡ some e
      → e.retryable ≡ true
      → done attempt ≡ some cause
      → (attempts_from answer done (suc left) attempt backoff).error ≡ some cause
  unfolding attempts_from
  ended left attempt backoff e cause p r d = rw (attempts_from, p, r, d) refl

  repeated :
      (left attempt : ℕ) (backoff : Duration) (e : PostError)
      → post (answer attempt) ≡ some e
      → e.retryable ≡ true
      → done attempt ≡ none
      → (attempts_from answer done (suc left) attempt backoff).error
        ≡ (attempts_from answer done left (suc attempt) (mul_int64 backoff (pos 2))).error
  unfolding attempts_from
  repeated left attempt backoff e p r d = rw (attempts_from, p, r, d) refl

some_error : {A : Type 0} (o : Option String) (t : String) → o ≡ none → o ≡ some t → A
some_error o t h g = let w : some t ≡ none = sym g ∙ h in ground (arith, w)

attempts_from-Delivers :
    (answer : ℕ → Answer) (done : ℕ → Option String) (left attempt : ℕ) (backoff : Duration)
    → ((attempts_from answer done left attempt backoff).error ≡ none)
      ↔ Delivers answer done left attempt
attempts_from-Delivers answer done zero attempt backoff = (
  λ h. elim (Option-cases (post (answer attempt))) [
    | inl p ↦ p
    | inr (e, p) ↦ some_error _ _ h (last_refused answer done attempt backoff e p)
  ],
  λ p. accepted answer done zero attempt backoff p,
)
attempts_from-Delivers answer done (suc left) attempt backoff = (
  λ h. elim (Option-cases (post (answer attempt))) [
    | inl p ↦ inl p
    | inr (e, p) ↦ elim (Bool-cases e.retryable) [
      | inr r ↦ some_error _ _ h (refused answer done left attempt backoff e p r)
      | inl r ↦ elim (Option-cases (done attempt)) [
        | inr (cause, d) ↦ some_error _ _ h (ended answer done left attempt backoff e cause p r d)
        | inl d ↦
            let next = mul_int64 backoff (pos 2) in
            let g = sym (repeated answer done left attempt backoff e p r d) ∙ h in
            inr ((e, (p, r)), (d, (attempts_from-Delivers answer done left (suc attempt) next).0 g))
      ]
    ]
  ],
  λ h. elim h [
    | inl p ↦ accepted answer done (suc left) attempt backoff p
    | inr ((e, (p, r)), (d, more)) ↦
        repeated answer done left attempt backoff e p r d
        ∙ (attempts_from-Delivers answer done left (suc attempt) (mul_int64 backoff (pos 2))).1 more
  ],
)

-- A status below 300 is accepted; an answer that never came, or a status from 500, is worth another attempt.
abbrev pub accepts : Answer → Bool
accepts (no_request e) = false
accepts (transport_failure e) = false
accepts (response code status) = ltb code 300

abbrev pub invites_retry : Answer → Bool
invites_retry (no_request e) = false
invites_retry (transport_failure e) = true
invites_retry (response code status) = leb 500 code

post-accepts : (a : Answer) → (post a ≡ none) ↔ (accepts a ≡ true)
unfolding post
post-accepts (no_request e) = (λ h. cc, λ h. cc)
post-accepts (transport_failure e) = (λ h. cc, λ h. cc)
post-accepts (response code status) = ground arith

post-invites_retry :
    (a : Answer)
    → ((e : PostError) × ((post a ≡ some e) × (e.retryable ≡ true)))
    → invites_retry a ≡ true
unfolding post
post-invites_retry (no_request e) (f, (p, r)) = ground (arith, p, r)
post-invites_retry (transport_failure e) h = refl
post-invites_retry (response code status) (f, (p, r)) = ground (arith, p, r)

retry_error :
    (a : Answer)
    → invites_retry a ≡ true
    → (e : PostError) × ((post a ≡ some e) × (e.retryable ≡ true))
unfolding post
retry_error (no_request e) h = cc
retry_error (transport_failure e) h = (record { retryable = true; text = e }, (refl, refl))
retry_error (response code status) h = elim (Bool-cases (leb 500 code)) [
  | inl e ↦
      let p : PostError = record {
        retryable = true;
        text = concat ("alertmanager returned " ∷ status ∷ []);
      } in
      (p, (rw (post, e) refl, refl))
  | inr e ↦ ground (arith, h, e)
]

-- The attempt of number `k`, from 0, is accepted, and each before it invites another and is followed by a wait that the
-- context lives through.
abbrev pub AcceptedAt : (ℕ → Answer) → (ℕ → Option String) → ℕ → Type 0
AcceptedAt answer done k =
    (accepts (answer k) ≡ true)
    × ((i : ℕ) → i < k → (invites_retry (answer i) ≡ true) × (done i ≡ none))

-- The answers and the waits from the second attempt on.
abbrev tail {ℓ} : {A : Type ℓ} → (ℕ → A) → ℕ → A
tail f n = f (suc n)

Delivers-tail :
    (answer : ℕ → Answer) (done : ℕ → Option String) (left attempt : ℕ)
    → Delivers answer done left (suc attempt) ↔ Delivers (tail answer) (tail done) left attempt
Delivers-tail answer done zero attempt = (λ h. h, λ h. h)
Delivers-tail answer done (suc left) attempt =
    let (to, from) = Delivers-tail answer done left (suc attempt) in
    (
      λ h. elim h [ inl p ↦ inl p | inr (e, (d, m)) ↦ inr (e, (d, to m)) ],
      λ h. elim h [ inl p ↦ inl p | inr (e, (d, m)) ↦ inr (e, (d, from m)) ],
    )

later_attempt :
    (answer : ℕ → Answer) (done : ℕ → Option String) (k : ℕ)
    → invites_retry (answer 0) ≡ true
    → done 0 ≡ none
    → AcceptedAt (tail answer) (tail done) k
    → AcceptedAt answer done (suc k)
later_attempt answer done k r d h = (h.0, earlier)
  where
    earlier : (i : ℕ) → i < suc k → (invites_retry (answer i) ≡ true) × (done i ≡ none)
    earlier zero l = (r, d)
    earlier (suc i) l = h.1 i (omega arith)

Delivers-AcceptedAt :
    (answer : ℕ → Answer) (done : ℕ → Option String) (left : ℕ)
    → Delivers answer done left 0
    → (k : ℕ) × ((k ≤ left) × AcceptedAt answer done k)
Delivers-AcceptedAt answer done zero h =
    (0, (omega arith, ((post-accepts (answer 0)).0 h, λ i l. ground (arith, l))))
Delivers-AcceptedAt answer done (suc left) h = elim h [
  | inl p ↦ (0, (omega arith, ((post-accepts (answer 0)).0 p, λ i l. ground (arith, l))))
  | inr (e, (d, more)) ↦
      let (k, (l, a)) =
        Delivers-AcceptedAt (tail answer) (tail done) left
          ((Delivers-tail answer done left 0).0 more) in
      (suc k, (omega arith, later_attempt answer done k (post-invites_retry (answer 0) e) d a))
]

AcceptedAt-Delivers :
    (answer : ℕ → Answer) (done : ℕ → Option String) (left k : ℕ)
    → k ≤ left
    → AcceptedAt answer done k
    → Delivers answer done left 0
AcceptedAt-Delivers answer done zero zero l (a, h) = (post-accepts (answer 0)).1 a
AcceptedAt-Delivers answer done zero (suc k) l (a, h) = ground (arith, l)
AcceptedAt-Delivers answer done (suc left) zero l (a, h) = inl ((post-accepts (answer 0)).1 a)
AcceptedAt-Delivers answer done (suc left) (suc k) l (a, h) =
    let first = h 0 (omega arith) in
    inr (
      retry_error (answer 0) first.0,
      (
        first.1,
        (Delivers-tail answer done left 0).1 (
            AcceptedAt-Delivers (tail answer) (tail done) left k (omega arith)
              (a, λ i m. h (suc i) (omega arith))),
      ),
    )

-- How many attempts there are: at least one.
abbrev pub allowed : ℤ → ℕ
allowed (pos n) = max 1 n
allowed (negsuc n) = 1

allowed_lem : (m : ℤ) (k : ℕ) → (k ≤ attempts_left m) ↔ (k < allowed m)
allowed_lem (pos n) k = (λ h. ground (arith, h), λ h. ground (arith, h))
allowed_lem (negsuc n) k = (λ h. ground (arith, h), λ h. ground (arith, h))

send-suc :
    (answer : ℕ → Answer) (done : ℕ → Option String) (max_attempts : ℤ) (backoff : Duration) (n : ℕ)
    → send answer done max_attempts backoff (suc n)
      ≡ (attempts_from answer done (attempts_left max_attempts) 0 backoff).error
unfolding send
send-suc answer done max_attempts backoff n =
    let e : nat_beq (suc n) 0 ≡ false = ground arith in rw e refl

-- Send reports no error exactly where there is nothing to send, or one of the attempts that are allowed, at least one, is
-- answered with a status below 300, each attempt before it got no answer or a status of 500 or more, and the
-- context lived through the waits between them.
pub send-AcceptedAt :
    (answer : ℕ → Answer) (done : ℕ → Option String) (max_attempts : ℤ) (backoff : Duration)
    (payload_length : ℕ)
    → (send answer done max_attempts backoff payload_length ≡ none)
      ↔ ((payload_length ≡ 0) ⊎ ((k : ℕ) × ((k < allowed max_attempts) × AcceptedAt answer done k)))
unfolding send
send-AcceptedAt answer done max_attempts backoff zero = (λ h. inl refl, λ h. refl)
send-AcceptedAt answer done max_attempts backoff (suc n) =
    let left = attempts_left max_attempts in
    let (to, from) = attempts_from-Delivers answer done left 0 backoff in
    (
      λ h.
          let (k, (l, a)) =
            Delivers-AcceptedAt answer done left
              (to (sym (send-suc answer done max_attempts backoff n) ∙ h)) in
          inr (k, ((allowed_lem max_attempts k).0 l, a)),
      λ h. elim h [
        | inl z ↦ ground (arith, z)
        | inr (k, (l, a)) ↦
            send-suc answer done max_attempts backoff n
            ∙ from (AcceptedAt-Delivers answer done left k ((allowed_lem max_attempts k).1 l) a)
      ],
    )
