-- ===== src/Publisher/Attribution.antt =====
-- When a publish succeeds, and which return it reports.
use orchestration_service.Base.{
  ℕ, ◌≡◌, refl, sym, ap, ◌∙◌, subst, arith, ◌↔◌, Bool, true, false, ◌++◌, none, some, List, [], ◌∷◌,
}
use orchestration_service.Text.{Text}
use orchestration_service.Errors.{GoError}
use orchestration_service.Errors.Result.{Result, ok, err}
use orchestration_service.Publisher.Channel.{
  Publishing, Return, Sent, refused, unconfirmed, pending, Broker, Channel,
}
use orchestration_service.Publisher.Publish.{
  returned_error, check_returns, after_wait, after_send, publish_on, Publisher, publish,
  json_message, with_body, publish_json,
}

module _ (b : Broker) where
  -- The message was sent and acked, and if it had to be routed, no return has come.
  abbrev pub Confirmed : Bool → Sent → Result Bool × List Return → List Return → Type 0
  Confirmed mandatory sent (acked, rs) returns =
      (sent ≡ pending) × ((acked ≡ ok true) × (mandatory ≡ true → returns ++ rs ≡ []))

  check_returns-none :
      (mandatory : Bool) (c : Channel b)
      → ((check_returns b mandatory c).0 ≡ none) ↔ (mandatory ≡ true → c.returns ≡ [])
  unfolding check_returns
  check_returns-none false c = (λ h m. cc, λ h. refl)
  check_returns-none true c = (λ h m. ground arith, λ h. ground (arith, h refl))

  after_wait-none :
      (mandatory : Bool) (acked : Result Bool) (c : Channel b)
      → ((after_wait b mandatory acked c).0 ≡ none)
        ↔ ((acked ≡ ok true) × (mandatory ≡ true → c.returns ≡ []))
  unfolding after_wait
  after_wait-none mandatory (err e) c = (λ h. cc, λ (a, r). cc)
  after_wait-none mandatory (ok false) c = (λ h. cc, λ (a, r). cc)
  after_wait-none mandatory (ok true) c = (
    λ h. (refl, (check_returns-none mandatory c).0 h),
    λ (a, r). (check_returns-none mandatory c).1 r,
  )

  after_send-none :
      (mandatory : Bool) (sent : Sent) (c : Channel b)
      → ((after_send b mandatory sent c).0 ≡ none)
        ↔ Confirmed mandatory sent (b.wait c.state).0 c.returns
  unfolding after_send
  after_send-none mandatory (refused e) c = (λ h. cc, λ (a, r). cc)
  after_send-none mandatory unconfirmed c = (λ h. cc, λ (a, r). cc)
  after_send-none mandatory pending c = (
    λ h. (refl, (after_wait-none mandatory _ _).0 h),
    λ (a, r). (after_wait-none mandatory _ _).1 r,
  )

  -- What the channel answers to a publish: whether the message was sent, and what comes with its wait.
  abbrev pub Taken : Text → Text → Bool → Publishing → Channel b → Type 0
  Taken exchange key mandatory message c =
      let (sent, state) = b.send exchange key mandatory message c.state in
      Confirmed mandatory sent (b.wait state).0 c.returns

  publish_on-none :
      (exchange key : Text) (mandatory : Bool) (message : Publishing) (c : Channel b)
      → ((publish_on b exchange key mandatory message c).0 ≡ none)
        ↔ Taken exchange key mandatory message c
  unfolding publish_on
  publish_on-none exchange key mandatory message c = after_send-none mandatory _ _

  abbrev TakenBy : Text → Text → Bool → Publisher b → Result (List ℕ) → Type 0
  TakenBy exchange key mandatory (some c) (ok bytes) =
      Taken exchange key mandatory (json_message b c.state bytes) c
  TakenBy exchange key mandatory _ _ = Unit

  -- `publishJSON` returns no error exactly if the publisher is initialized, the payload was encoded, and its
  -- message was sent and acked, with no return waiting then if it is mandatory.
  pub publish_json-succeeds_iff :
      (exchange key : Text) (body : Result (List ℕ)) (mandatory : Bool) (p : Publisher b)
      → ((publish_json b exchange key body mandatory p).0 ≡ none) ↔ (
          (c : Channel b) × ((bytes : List ℕ) × ((p ≡ some c)
              × ((body ≡ ok bytes)
                  × Taken exchange key mandatory (json_message b c.state bytes) c))))
  unfolding publish_json with_body publish
  publish_json-succeeds_iff exchange key body mandatory none = (λ h. cc, λ (c, (bytes, (p, r))). cc)
  publish_json-succeeds_iff exchange key (err e) mandatory (some c) =
      (λ h. cc, λ (c', (bytes, (p, (q, r)))). cc)
  publish_json-succeeds_iff exchange key (ok bytes) mandatory (some c) = (
    λ h. (c, (bytes, (refl, (refl, (publish_on-none exchange key mandatory _ c).0 h)))),
    λ (c', (bytes', (p, (q, r)))). (publish_on-none exchange key mandatory _ c).1 (
        subst (TakenBy exchange key mandatory (some c)) (sym q)
          (subst (λ p. TakenBy exchange key mandatory p (ok bytes')) (sym p) r)),
  )

  after_wait-returns :
      (mandatory : Bool) (e : GoError) (acked : Result Bool) (c : Channel b)
      → acked ≡ err e
      → (after_wait b mandatory acked c).1.returns ≡ c.returns
  unfolding after_wait
  after_wait-returns mandatory e (err e') c h = refl
  after_wait-returns mandatory e (ok a) c h = cc

  after_send-returns :
      (mandatory : Bool) (e : GoError) (sent : Sent) (c : Channel b)
      → sent ≡ pending
      → (b.wait c.state).0.0 ≡ err e
      → (after_send b mandatory sent c).1.returns ≡ c.returns ++ (b.wait c.state).0.1
  unfolding after_send
  after_send-returns mandatory e pending c s w = after_wait-returns mandatory e _ _ w
  after_send-returns mandatory e (refused e') c s w = cc
  after_send-returns mandatory e unconfirmed c s w = cc

  check_returns-oldest :
      (c : Channel b) (r : Return) (rest : List Return)
      → c.returns ≡ r ∷ rest
      → (check_returns b true c).0 ≡ some (returned_error r)
  unfolding check_returns
  check_returns-oldest c r rest h = ground arith

  after_wait-oldest :
      (acked : Result Bool) (c : Channel b) (r : Return) (rest : List Return)
      → acked ≡ ok true
      → c.returns ≡ r ∷ rest
      → (after_wait b true acked c).0 ≡ some (returned_error r)
  unfolding after_wait
  after_wait-oldest (ok true) c r rest a h = check_returns-oldest c r rest h
  after_wait-oldest (ok false) c r rest a h = cc
  after_wait-oldest (err e) c r rest a h = cc

  after_send-oldest :
      (sent : Sent) (c : Channel b) (r : Return) (rest : List Return)
      → sent ≡ pending
      → (b.wait c.state).0.0 ≡ ok true
      → c.returns ≡ r ∷ rest
      → (after_send b true sent c).0 ≡ some (returned_error r)
  unfolding after_send
  after_send-oldest pending c r rest s w h =
      after_wait-oldest _ _ r _ w (ap (λ l. l ++ (b.wait c.state).0.1) h)
  after_send-oldest (refused e) c r rest s w h = cc
  after_send-oldest unconfirmed c r rest s w h = cc

  -- If a publish ends in an error of the wait for its confirmation, what has been returned by then stays
  -- in the buffer. The next mandatory publish that is sent and acked is answered with the oldest of
  -- these returns, whatever became of its own message.
  pub publish_on-stale :
      (exchange key exchange' key' : Text) (mandatory : Bool) (message message' : Publishing)
      (c : Channel b) (e : GoError) (r : Return) (rest : List Return)
      → (let (sent, state) = b.send exchange key mandatory message c.state in
          (sent ≡ pending)
          × (((b.wait state).0.0 ≡ err e) × (c.returns ++ (b.wait state).0.1 ≡ r ∷ rest)))
      → (let c' = (publish_on b exchange key mandatory message c).1 in
          let (sent, state) = b.send exchange' key' true message' c'.state in
          (sent ≡ pending) × ((b.wait state).0.0 ≡ ok true))
      → (publish_on b exchange' key' true message'
          (publish_on b exchange key mandatory message c).1).0
        ≡ some (returned_error r)
  unfolding publish_on
  publish_on-stale exchange key exchange' key' mandatory message message' c e r rest (s, (w, q))
        (s', w') =
      after_send-oldest _ _ r rest s' w' (after_send-returns mandatory e _ _ s w ∙ q)
