-- ===== src/Drag/Laws.antt =====
-- What the throttle keeps, and where the element is shown.
use tgvejs.Prelude.{
  ℕ, ◌≤◌, ◌≡◌, ◌≢◌, refl, ap, ◌∙◌, ◌⊎◌, inl, inr, not, none, some, List, [], ◌∷◌, ◌++◌, length,
  arith, ◌==◌, filter,
}
use tgvejs.Drag.{
  Throttle, throttle, request_frame, call, invoke, frame, cancel, Event, called, framed, cancelled,
  step,
}

module _ (A : Type 0) where
  -- Nothing is asked for, or one frame is: the one of the token, for the last arguments; or it has been
  -- cancelled, and the token stays.
  pub data Runs : Throttle A → Type 0 where
    idle : (t : Throttle A) → t.token ≡ none → t.frames ≡ [] → Runs t
    asked :
        (t : Throttle A) (k : ℕ) (args : A)
        → t.token ≡ some k
        → t.frames ≡ k ∷ []
        → t.last_args ≡ some args
        → Runs t
    dead : (t : Throttle A) (k : ℕ) → t.token ≡ some k → t.frames ≡ [] → Runs t

  call-Runs : (args : A) (t : Throttle A) → Runs t → Runs (call A args t)
  unfolding call
  call-Runs args t (idle s e f) =
      rw (call, e) (asked _ t.next_token args refl (ap (◌++ (t.next_token ∷ [])) f) refl)
  call-Runs args t (asked s k a e f g) = rw (call, e) (asked _ k args e f refl)
  call-Runs args t (dead s k e f) = rw (call, e) (dead _ k e f)

  same_equal : (k : ℕ) → filter (λ j. not (j == k)) (k ∷ []) ≡ []
  unfolding filter
  same_equal k = ground arith

  frame-Runs : (t : Throttle A) → Runs t → Runs (frame A t)
  unfolding frame invoke
  frame-Runs t (idle s e f) = rw (frame, f) (idle t e f)
  frame-Runs t (asked s k a e f g) = rw (frame, f, invoke, g) (idle _ refl refl)
  frame-Runs t (dead s k e f) = rw (frame, f) (dead t k e f)

  cancel-Runs : (t : Throttle A) → Runs t → Runs (cancel A t)
  unfolding cancel filter
  cancel-Runs t (idle s e f) = rw (cancel, e) (idle t e f)
  cancel-Runs t (asked s k a e f g) =
      rw (cancel, e) (dead _ k e (ap (filter (λ j. not (j == k))) f ∙ same_equal k))
  cancel-Runs t (dead s k e f) = rw (cancel, e) (dead _ k e (ap (filter (λ j. not (j == k))) f))

  step-Runs : (e : Event A) (t : Throttle A) → Runs t → Runs (step A e t)
  unfolding step
  step-Runs (called args) t r = call-Runs args t r
  step-Runs framed t r = frame-Runs t r
  step-Runs cancelled t r = cancel-Runs t r

  abbrev pub run : List (Event A) → Throttle A → Throttle A
  run [] t = t
  run (e ∷ es) t = run es (step A e t)

  run-Runs : (es : List (Event A)) (t : Throttle A) → Runs t → Runs (run es t)
  run-Runs [] t r = r
  run-Runs (e ∷ es) t r = run-Runs es (step A e t) (step-Runs e t r)

  frames_at_most : (t : Throttle A) → Runs t → length t.frames ≤ 1
  frames_at_most t (idle s e f) = omega (arith, ap length f)
  frames_at_most t (asked s k a e f g) = omega (arith, ap length f)
  frames_at_most t (dead s k e f) = omega (arith, ap length f)

  -- A throttle that was cancelled while a frame was asked for.
  abbrev pub IsDead : Throttle A → Type 0
  IsDead t = (k : ℕ) × (t.token ≡ some k) × (t.frames ≡ [])

  call-busy :
      (args : A) (t : Throttle A) (k : ℕ)
      → t.token ≡ some k
      → call A args t ≡ record t { last_args = some args }
  unfolding call
  call-busy args t k e = ground arith

  call-idle :
      (args : A) (t : Throttle A)
      → t.token ≡ none
      → call A args t ≡ request_frame A (record t { last_args = some args })
  unfolding call
  call-idle args t e = ground arith

  frame-nothing : (t : Throttle A) → t.frames ≡ [] → frame A t ≡ t
  unfolding frame
  frame-nothing t f = ground arith

  cancel-token :
      (t : Throttle A) (k : ℕ)
      → t.token ≡ some k
      → cancel A t ≡ record t { frames = filter (λ j. not (j == k)) t.frames }
  unfolding cancel
  cancel-token t k e = ground arith

  frame-first :
      (t : Throttle A) (j : ℕ) (args : A)
      → t.frames ≡ j ∷ []
      → t.last_args ≡ some args
      → (frame A t).calls ≡ args ∷ t.calls
  unfolding frame invoke
  frame-first t j args f g = rw (frame, f, invoke, g) refl

  step-IsDead :
      (e : Event A) (t : Throttle A)
      → IsDead t
      → IsDead (step A e t) × ((step A e t).calls ≡ t.calls)
  unfolding step call frame cancel filter
  step-IsDead (called args) t (k, e, f) =
      let b = call-busy args t k e in
      (
        (k, ap (λ (x : Throttle A). x.token) b ∙ e, ap (λ (x : Throttle A). x.frames) b ∙ f),
        ap (λ (x : Throttle A). x.calls) b,
      )
  step-IsDead framed t (k, e, f) =
      let n = frame-nothing t f in
      (
        (k, ap (λ (x : Throttle A). x.token) n ∙ e, ap (λ (x : Throttle A). x.frames) n ∙ f),
        ap (λ (x : Throttle A). x.calls) n,
      )
  step-IsDead cancelled t (k, e, f) =
      let n = cancel-token t k e in
      (
        (
          k,
          ap (λ (x : Throttle A). x.token) n ∙ e,
          ap (λ (x : Throttle A). x.frames) n ∙ ap (filter (λ j. not (j == k))) f,
        ),
        ap (λ (x : Throttle A). x.calls) n,
      )

  run-IsDead : (es : List (Event A)) (t : Throttle A) → IsDead t → (run es t).calls ≡ t.calls
  run-IsDead [] t d = refl
  run-IsDead (e ∷ es) t d = let (n, c) = step-IsDead e t d in run-IsDead es (step A e t) n ∙ c

  throttle-Runs : (es : List (Event A)) → Runs (run es (throttle A))
  unfolding throttle
  throttle-Runs es = run-Runs es (throttle A) (idle (throttle A) refl refl)

  -- Nothing is asked for, or the frame of the token is.
  abbrev Live : Throttle A → Type 0
  Live t =
      ((t.token ≡ none) × (t.frames ≡ []))
      ⊎ ((k : ℕ) × (args : A) × (t.token ≡ some k)
          × (t.frames ≡ k ∷ [])
          × (t.last_args ≡ some args))

  Live-call : (args : A) (t : Throttle A) → Live t → Live (call A args t)
  unfolding call
  Live-call args t (inl (e, f)) =
      rw (call, e) (inr (t.next_token, args, refl, ap (◌++ (t.next_token ∷ [])) f, refl))
  Live-call args t (inr (k, a, e, f, g)) = rw (call, e) (inr (k, args, e, f, refl))

  Live-frame : (t : Throttle A) → Live t → Live (frame A t)
  unfolding frame invoke
  Live-frame t (inl (e, f)) = rw (frame, f) (inl (e, f))
  Live-frame t (inr (k, a, e, f, g)) = rw (frame, f, invoke, g) (inl (refl, refl))

  -- A frame that was asked for is cancelled at some point of the events.
  abbrev pub IsCancelled : List (Event A) → Throttle A → Type 0
  IsCancelled [] t = ⊥
  IsCancelled (called args ∷ es) t = IsCancelled es (call A args t)
  IsCancelled (framed ∷ es) t = IsCancelled es (frame A t)
  IsCancelled (cancelled ∷ es) t = (t.frames ≢ []) ⊎ IsCancelled es (cancel A t)

  Live-cancel : (t : Throttle A) → Live t → (t.frames ≢ []) ⊎ Live (cancel A t)
  unfolding cancel
  Live-cancel t (inl (e, f)) = inr (rw (cancel, e) (inl (e, f)))
  Live-cancel t (inr (k, a, e, f, g)) = inl (λ n. cc (f, n))

  Live-run : (es : List (Event A)) (t : Throttle A) → Live t → IsCancelled es t ⊎ Live (run es t)
  unfolding step
  Live-run [] t l = inr l
  Live-run (called args ∷ es) t l = Live-run es (call A args t) (Live-call args t l)
  Live-run (framed ∷ es) t l = Live-run es (frame A t) (Live-frame t l)
  Live-run (cancelled ∷ es) t l = elim (Live-cancel t l) [
    | inl n ↦ inl (inl n)
    | inr m ↦ elim (Live-run es (cancel A t) m) [ inl c ↦ inl (inr c) | inr r ↦ inr r ]
  ]

  call-frame :
      (args : A) (t : Throttle A) → Live t → (frame A (call A args t)).calls ≡ args ∷ t.calls
  unfolding call frame invoke
  call-frame args t (inl (e, f)) =
      let b = call-idle args t e in
      frame-first (call A args t) t.next_token args
        (ap (λ (x : Throttle A). x.frames) b ∙ ap (◌++ (t.next_token ∷ [])) f)
        (ap (λ (x : Throttle A). x.last_args) b)
      ∙ ap (λ (x : Throttle A). args ∷ x.calls) b
  call-frame args t (inr (k, a, e, f, g)) =
      let b = call-busy args t k e in
      frame-first (call A args t) k args (ap (λ (x : Throttle A). x.frames) b ∙ f)
        (ap (λ (x : Throttle A). x.last_args) b)
      ∙ ap (λ (x : Throttle A). args ∷ x.calls) b

  -- After any moves, frames and cancellations, at most one frame is asked for; and unless a
  -- cancellation came while a frame was asked for, a further move and a frame call the function just
  -- once, with the arguments of that move.
  pub throttle-calls :
      (es : List (Event A)) (args : A)
      → (length (run es (throttle A)).frames ≤ 1)
        × (IsCancelled es (throttle A)
            ⊎ ((frame A (call A args (run es (throttle A)))).calls
                ≡ args ∷ (run es (throttle A)).calls))
  unfolding throttle
  throttle-calls es args = (
    frames_at_most (run es (throttle A)) (throttle-Runs es),
    elim (Live-run es (throttle A) (inl (refl, refl))) [
      | inl c ↦ inl c
      | inr l ↦ inr (call-frame args (run es (throttle A)) l)
    ],
  )

  cancel-IsDead :
      (t : Throttle A) (k : ℕ)
      → Runs t
      → t.token ≡ some k
      → IsDead (cancel A t) × ((cancel A t).calls ≡ t.calls)
  unfolding cancel filter
  cancel-IsDead t k (idle s e f) h = absurd (cc)
  cancel-IsDead t k (asked s j a e f g) h =
      rw (cancel, e) ((j, e, ap (filter (λ i. not (i == j))) f ∙ same_equal j), refl)
  cancel-IsDead t k (dead s j e f) h =
      rw (cancel, e) ((j, e, ap (filter (λ i. not (i == j))) f), refl)

  -- Once a throttle is cancelled while it has a token, the function is never called again, whatever
  -- moves and frames come.
  pub cancel-silent :
      (es more : List (Event A)) (k : ℕ)
      → (run es (throttle A)).token ≡ some k
      → (run more (cancel A (run es (throttle A)))).calls ≡ (run es (throttle A)).calls
  cancel-silent es more k h =
      let (d, c) = cancel-IsDead (run es (throttle A)) k (throttle-Runs es) h in
      run-IsDead more (cancel A (run es (throttle A))) d ∙ c
