-- ===== src/Status/Stream.antt =====
-- What the event streams of app/api/routes/status.py deliver.
use knowledgebase.Prelude.{
  ℕ, zero, suc, ◌<◌, ◌≡◌, none, ◌≢◌, All, refl, sym, ap, ◌∙◌, subst, Bool, true, false, Option,
  some, List, [], ◌∷◌, ◌++◌, length, length-append, arith, ◌==◌, ==_refl, ltb, Bool-cases, inl, inr,
  if◌then◌else◌,
}
use knowledgebase.Prelude.Text.{Text, same_text}
use knowledgebase.Prelude.Table.{first, first-In, update, select}
use knowledgebase.Models.{Uuid}
use knowledgebase.Pipeline.{
  Event, Subscription, EventBus, queue_size, put, broadcast, subscribe, System,
}
use knowledgebase.Pipeline.Bus.{unsubscribe-subscribe}
use knowledgebase.Status.{
  SseEvent, pipeline_update, heartbeat, is_mine, wanted, shown, take_item, items_of, poll, Action,
  published, round, run_stream, connect, disconnect,
}

module _ {A : Type 0} where
  first-update :
      (q p : A → Bool) (f : A → A) (xs : List A) (x : A)
      → ((y : A) → q (f y) ≡ q y)
      → first q xs ≡ some x
      → first q (update p f xs) ≡ some (if p x then f x else x)
  unfolding first update
  first-update q p f [] x keep h = absurd (cc)
  first-update q p f (y ∷ xs) x keep h = elim (Bool-cases (q y)) [
    | inl e ↦
        let g = rw e at h in
        let same : y ≡ x = ground arith in
        subst (λ z. first q (update p f (y ∷ xs)) ≡ some (if p z then f z else z)) same
          (elim (Bool-cases (p y)) [ inl b ↦ rw (b, keep y, e) refl | inr b ↦ rw (b, e) refl ])
    | inr e ↦
        let rest = first-update q p f xs x keep (rw e at h) in
        elim (Bool-cases (p y)) [ inl b ↦ rw (b, keep y, e) rest | inr b ↦ rw (b, e) rest ]
  ]

  select-append_lem :
      (p : A → Bool) (xs ys : List A) → select p (xs ++ ys) ≡ select p xs ++ select p ys
  unfolding select
  select-append_lem p [] ys = refl
  select-append_lem p (x ∷ xs) ys = elim (Bool-cases (p x)) [
    | inl e ↦ rw e (ap (λ zs. x ∷ zs) (select-append_lem p xs ys))
    | inr e ↦ rw e (select-append_lem p xs ys)
  ]

  append_assoc : (xs ys zs : List A) → (xs ++ ys) ++ zs ≡ xs ++ (ys ++ zs)
  append_assoc [] ys zs = refl
  append_assoc (x ∷ xs) ys zs = ap (λ ws. x ∷ ws) (append_assoc xs ys zs)

  append-nil : (xs : List A) → xs ++ [] ≡ xs
  append-nil [] = refl
  append-nil (x ∷ xs) = ap (λ ys. x ∷ ys) (append-nil xs)

abbrev pred : ℕ → ℕ
pred zero = zero
pred (suc n) = n

module _ (str_uuid : Uuid → Text) (tenant_id : Uuid) (queue : ℕ)
    (document_id : Option (Text × Uuid)) where
  -- The events of the tenant, in order.
  unfoldable pub own_events : List (Action str_uuid tenant_id queue document_id) → List Event
  own_events [] = []
  own_events (published tenant e ∷ actions) =
      let rest = own_events actions in if tenant == tenant_id then e ∷ rest else rest
  own_events (round ∷ actions) = own_events actions

  -- The queue has room for each event of the tenant, if it holds `n` events at first.
  unfoldable pub IsKeptUp : ℕ → List (Action str_uuid tenant_id queue document_id) → Type 0
  IsKeptUp n [] = Unit
  IsKeptUp n (published tenant e ∷ actions) =
      if tenant == tenant_id
      then (n < queue_size) × IsKeptUp (suc n) actions
      else IsKeptUp n actions
  IsKeptUp n (round ∷ actions) = IsKeptUp (pred n) actions

  -- The events among what was sent.
  unfoldable pub updates : List SseEvent → List Event
  updates [] = []
  updates (pipeline_update e ∷ out) = e ∷ updates out
  updates (heartbeat ∷ out) = updates out
  updates (_ ∷ out) = updates out

  -- The queue of the stream is in the bus, for its tenant, with these items.
  abbrev pub IsOpen : List Event → EventBus → Type 0
  IsOpen items bus =
      (s : Subscription) × (first (is_mine str_uuid tenant_id queue document_id) bus ≡ some s)
      × (s.tenant_id ≡ tenant_id)
      × (s.items ≡ items)

  -- The events in the queue of the stream.
  abbrev pub waiting : EventBus → List Event
  waiting bus =
      items_of str_uuid tenant_id queue document_id
        (first (is_mine str_uuid tenant_id queue document_id) bus)

  put-queue : (e : Event) (s : Subscription) → (put e s).queue ≡ s.queue
  unfolding put
  put-queue e s = ground arith

  after_broadcast :
      (tenant : Uuid) (e : Event) (bus : EventBus) (s : Subscription)
      → first (is_mine str_uuid tenant_id queue document_id) bus ≡ some s
      → first (is_mine str_uuid tenant_id queue document_id) (broadcast tenant e bus)
        ≡ some (if s.tenant_id == tenant then put e s else s)
  unfolding broadcast
  after_broadcast tenant e bus s found =
      first-update (is_mine str_uuid tenant_id queue document_id) (λ x. x.tenant_id == tenant)
        (put e) bus s (λ x. rw (put-queue e x) refl) found

  -- An event of the tenant is put into the queue if there is room.
  own-IsOpen :
      (tenant : Uuid) (e : Event) (items : List Event) (bus : EventBus)
      → (tenant == tenant_id) ≡ true
      → length items < queue_size
      → IsOpen items bus
      → IsOpen (items ++ e ∷ []) (broadcast tenant e bus)
  unfolding put
  own-IsOpen tenant e items bus b room (s, found, own, held) =
      let there : ltb (length s.items) queue_size ≡ true = rw held (ground (arith, room)) in
      let hit : (s.tenant_id == tenant) ≡ true = ground (arith, own, b) in
      (
        record s { items = s.items ++ e ∷ [] },
        rw (hit, put, there) at (after_broadcast tenant e bus s found),
        own,
        rw held refl,
      )

  foreign-IsOpen :
      (tenant : Uuid) (e : Event) (items : List Event) (bus : EventBus)
      → (tenant == tenant_id) ≡ false
      → IsOpen items bus
      → IsOpen items (broadcast tenant e bus)
  foreign-IsOpen tenant e items bus b (s, found, own, held) =
      let miss : (s.tenant_id == tenant) ≡ false = ground (arith, own, b) in
      (s, rw miss at (after_broadcast tenant e bus s found), own, held)

  poll-IsOpen :
      (e : Event) (items : List Event) (bus : EventBus)
      → IsOpen (e ∷ items) bus
      → IsOpen items (
          update
            (is_mine str_uuid tenant_id queue document_id)
            (take_item str_uuid tenant_id queue document_id)
            bus)
  poll-IsOpen e items bus (s, found, own, held) =
      let found_after =
        first-update (is_mine str_uuid tenant_id queue document_id)
          (is_mine str_uuid tenant_id queue document_id)
          (take_item str_uuid tenant_id queue document_id) bus s (λ x. refl) found in
      let (_, mine) = first-In (is_mine str_uuid tenant_id queue document_id) bus found in
      (take_item str_uuid tenant_id queue document_id s, rw mine at found_after, own, rw held refl)

  updates-shown :
      (e : Event) (out : List SseEvent)
      → updates (shown str_uuid tenant_id queue document_id e ++ out)
        ≡ (if wanted str_uuid tenant_id queue document_id e then e ∷ updates out else updates out)
  unfolding updates
  updates-shown e out = elim (Bool-cases (wanted str_uuid tenant_id queue document_id e)) [
    | inl b ↦ rw b refl
    | inr b ↦ rw b refl
  ]

  select-step :
      (e : Event) (out : List SseEvent) (left items : List Event)
      → updates out ++ left ≡ select (wanted str_uuid tenant_id queue document_id) items
      → updates (shown str_uuid tenant_id queue document_id e ++ out) ++ left
        ≡ select (wanted str_uuid tenant_id queue document_id) (e ∷ items)
  unfolding select
  select-step e out left items h =
      elim (Bool-cases (wanted str_uuid tenant_id queue document_id e)) [
        | inl b ↦ rw (updates-shown e out, b) (ap (λ l. e ∷ l) h)
        | inr b ↦ rw (updates-shown e out, b) h
      ]

  -- From a queue that holds `items`.
  run_stream_complete :
      (actions : List (Action str_uuid tenant_id queue document_id)) (items : List Event)
      (bus : EventBus)
      → IsOpen items bus
      → IsKeptUp (length items) actions
      → updates (run_stream str_uuid tenant_id queue document_id actions bus).0
          ++ select
              (wanted str_uuid tenant_id queue document_id)
              (waiting (run_stream str_uuid tenant_id queue document_id actions bus).1)
        ≡ select (wanted str_uuid tenant_id queue document_id) (items ++ own_events actions)
  unfolding run_stream poll updates own_events IsKeptUp
  run_stream_complete [] items bus (s, found, own, held) few =
      rw (found, held)
        (ap (select (wanted str_uuid tenant_id queue document_id)) (sym (append-nil items)))
  run_stream_complete (published tenant e ∷ actions) items bus opened few =
      elim (Bool-cases (tenant == tenant_id)) [
        | inl b ↦
            let (room, kept) = rw (b, IsKeptUp) at few in
            let after = own-IsOpen tenant e items bus b room opened in
            let longer : length (items ++ e ∷ []) ≡ suc (length items) =
              omega (arith, length-append items (e ∷ [])) in
            rw (b, own_events)
              (run_stream_complete actions (items ++ e ∷ []) (broadcast tenant e bus) after
                  (rw longer kept)
                ∙ ap (select (wanted str_uuid tenant_id queue document_id))
                    (append_assoc items (e ∷ []) (own_events actions)))
        | inr b ↦
            rw (b, own_events)
              (run_stream_complete actions items (broadcast tenant e bus)
                (foreign-IsOpen tenant e items bus b opened) (rw (b, IsKeptUp) at few))
      ]
  run_stream_complete (round ∷ actions) [] bus (s, found, own, held) few =
      rw (found, held, poll) (run_stream_complete actions [] bus (s, found, own, held) few)
  run_stream_complete (round ∷ actions) (e ∷ items) bus (s, found, own, held) few =
      rw (found, held, poll)
        (select-step e _ _ (items ++ own_events actions)
          (run_stream_complete actions items _ (poll-IsOpen e items bus (s, found, own, held)) few))

  subscribe-IsOpen :
      (bus : EventBus) → All (λ s. s.queue ≢ queue) bus → IsOpen [] (subscribe tenant_id queue bus)
  unfolding subscribe first
  subscribe-IsOpen [] h = (
    record { tenant_id = tenant_id; queue = queue; items = [] },
    rw (==_refl queue) refl,
    refl,
    refl,
  )
  subscribe-IsOpen (s ∷ bus) h =
      let other : (s.queue == queue) ≡ false = ground (arith, h.0) in
      rw other (subscribe-IsOpen bus h.1)

  -- The event is of the document that was asked for, if one was.
  abbrev pub is_asked : Event → Bool
  is_asked e = elim document_id [
    | none ↦ true
    | some asked ↦ same_text (str_uuid e.document_id) asked.0
  ]

  -- What a stream sends after it was opened, under a queue number that was not used, and what still waits in its queue are together the events of the tenant since then, in this order, without those whose
  -- document has another id than the text of the request, if it is for one document: none is lost, none comes twice and none of another tenant comes, however the events and the rounds of the loop are interleaved, as long as no event
  -- of the tenant meets a queue of 200. And when the stream is closed at once, the bus is as it was before.
  pub stream_complete :
      (actions : List (Action str_uuid tenant_id queue document_id)) (sys : System)
      → All (λ s. s.queue ≢ queue) sys.bus
      → IsKeptUp 0 actions
      → (updates
              (run_stream str_uuid tenant_id queue document_id actions
                (connect str_uuid tenant_id queue document_id sys).1.bus).0
            ++ select is_asked (
                waiting
                  (run_stream str_uuid tenant_id queue document_id actions
                    (connect str_uuid tenant_id queue document_id sys).1.bus).1)
          ≡ select is_asked (own_events actions))
        × (disconnect str_uuid tenant_id queue document_id
              (connect str_uuid tenant_id queue document_id sys).1.bus
            ≡ sys.bus)
  unfolding connect disconnect wanted
  stream_complete actions sys new kept = (
    run_stream_complete actions [] (subscribe tenant_id queue sys.bus)
        (subscribe-IsOpen sys.bus new) kept,
    unsubscribe-subscribe tenant_id queue sys.bus new,
  )
