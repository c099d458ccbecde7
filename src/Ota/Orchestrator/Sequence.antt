-- ===== src/Ota/Orchestrator/Sequence.antt =====
-- The sequence numbers of the outbox: an invariant of every operation, and what `emit` promises.
use iov_vehicle_cgw_fota.Prelude.{
  ℕ, suc, ◌+◌, ◌-◌, ◌≤◌, ◌<◌, ◌≡◌, ◌≢◌, refl, ◌∙◌, ◌⊎◌, inl, inr, Bool, true, false, none, some,
  arith, Bool-cases, ltb,
}
use iov_vehicle_cgw_fota.Store.CloudState.{FotaEventOutboxMeta}
use iov_vehicle_cgw_fota.Ota.Messages.{ExecutionEvent}
use iov_vehicle_cgw_fota.Ota.Ports.{StartResult, PrepareResult, StartRun, returns, emits}
use iov_vehicle_cgw_fota.Ota.Orchestrator.System.{System, Env}
use iov_vehicle_cgw_fota.Ota.Orchestrator.Outbox.{
  all_sent, outbox_meta, outbox_full, event_record, emit, run_start, start_executor, send_pending,
}
use iov_vehicle_cgw_fota.Ota.Orchestrator.Execute.{
  start_answered, prepare_answered, launch, launch_if, advance_watermark,
}
use iov_vehicle_cgw_fota.Ota.Orchestrator.Untouched.{
  IsUntouched, call-IsUntouched, persist_execution-IsUntouched,
}
use iov_vehicle_cgw_fota.Ota.Orchestrator.Sending.{IsKeyed, send_events-Sent}

-- The numbering of the outbox. `max` is `eventOutboxMax`.
pub record IsNumbered (max : ℕ) (s : System) : Type 0 where
  pub positive : 1 ≤ s.next_seq
  pub bounded : s.next_seq ≤ suc max
  pub synced : (outbox_meta s).next_sequence_no ≡ s.next_seq
  pub accepted_below : s.accepted_seq < s.next_seq
  pub saved_below : (outbox_meta s).accepted_sequence_no < s.next_seq
  pub fresh : (j : ℕ) → s.next_seq ≤ j → s.store.events j ≡ none
  pub unused : s.store.events 0 ≡ none
  pub keyed : IsKeyed s

-- A uint32_t.
abbrev pub FitsU32 : ℕ → Type 0
FitsU32 n = n < 4294967296

outbox_room :
    (max next : ℕ)
    → FitsU32 max
    → 1 ≤ next
    → next ≤ suc max
    → outbox_full max next ≡ false
    → next ≤ max
outbox_room max next f p b h = ground arith

outbox_no_room :
    (max next : ℕ)
    → FitsU32 max
    → 1 ≤ next
    → next ≤ suc max
    → outbox_full max next ≡ true
    → next ≡ suc max
outbox_no_room max next f p b h = ground arith

-- `emit` on a numbered outbox stores the event under the next number, which no event had, and leaves
-- the other events alone; it refuses exactly when `eventOutboxMax` numbers are used up, and then
-- changes nothing.
pub emit_lem :
    (evt : ExecutionEvent) (e : Env) (s : System)
    → FitsU32 e.cfg.event_outbox_max
    → IsNumbered e.cfg.event_outbox_max s
    → let (accepted, t) = emit evt e s in
      ((accepted ≡ false) × (t ≡ s) × (s.next_seq ≡ suc e.cfg.event_outbox_max))
      ⊎ ((accepted ≡ true)
          × (s.next_seq ≤ e.cfg.event_outbox_max)
          × (t.next_seq ≡ suc s.next_seq)
          × (s.store.events s.next_seq ≡ none)
          × (t.store.events s.next_seq ≡ some (event_record e.codec s.next_seq evt))
          × ((j : ℕ) → j ≢ s.next_seq → t.store.events j ≡ s.store.events j))
unfolding emit event_record
emit_lem evt e s f h =
    elim (Bool-cases (outbox_full e.cfg.event_outbox_max (outbox_meta s).next_sequence_no)) [
      | inl full ↦
          simp full
            (inl (refl, refl, outbox_no_room _ _ f h.positive h.bounded (rw h.synced at full)))
      | inr room ↦ simp room (
          inr (
            refl,
            outbox_room _ _ f h.positive h.bounded (rw h.synced at room),
            ground (arith, h.synced, h.bounded),
            h.fresh s.next_seq (omega arith),
            rw h.synced (ground arith),
            λ j n. ground (arith, h.synced),
          ))
    ]

emit_room-IsNumbered :
    (evt : ExecutionEvent) (e : Env) (s : System)
    → FitsU32 e.cfg.event_outbox_max
    → IsNumbered e.cfg.event_outbox_max s
    → outbox_full e.cfg.event_outbox_max (outbox_meta s).next_sequence_no ≡ false
    → IsNumbered e.cfg.event_outbox_max (emit evt e s).1
unfolding emit event_record
emit_room-IsNumbered evt e s f h room =
    let low = outbox_room _ _ f h.positive h.bounded (rw h.synced at room) in
    simp room (record {
      positive = ground (arith, h.synced);
      bounded = ground (arith, h.synced);
      synced = refl;
      accepted_below = ground (arith, h.synced);
      saved_below = ground (arith, h.synced);
      fresh = λ j l. ground (arith, h.synced, h.fresh j);
      unused = ground (arith, h.synced, h.unused);
      keyed = λ j rec p. ground (arith, h.keyed j rec);
    })

module _ (e : Env) (f : FitsU32 e.cfg.event_outbox_max) where
  pub emit-IsNumbered :
      (evt : ExecutionEvent) (s : System)
      → IsNumbered e.cfg.event_outbox_max s
      → IsNumbered e.cfg.event_outbox_max (emit evt e s).1
  unfolding emit
  emit-IsNumbered evt s h =
      elim (Bool-cases (outbox_full e.cfg.event_outbox_max (outbox_meta s).next_sequence_no)) [
        | inl full ↦ simp full h
        | inr room ↦ emit_room-IsNumbered evt e s f h room
      ]

  pub run_start-IsNumbered :
      (run : StartRun) (s : System)
      → IsNumbered e.cfg.event_outbox_max s
      → IsNumbered e.cfg.event_outbox_max (run_start run e s).1
  unfolding run_start
  run_start-IsNumbered (returns result) s h = h
  run_start-IsNumbered (emits evt rest) s h =
      let (accepted, s') = emit evt e s in
      run_start-IsNumbered (rest accepted) s' (emit-IsNumbered evt s h)

-- The send loop over the whole outbox.
pub send_pending-IsNumbered :
    (max : ℕ) (e : Env) (s : System)
    → IsNumbered max s
    → IsNumbered max (send_pending s.next_seq e s).1
unfolding send_pending
send_pending-IsNumbered max e s h =
    let x = send_events-Sent e (s.next_seq - 1) 1 all_sent s h.keyed in
    let rounds : 1 + (s.next_seq - 1) ≡ s.next_seq = omega (arith, h.positive) in
    record {
      positive = rw x.next_kept h.positive;
      bounded = rw x.next_kept h.bounded;
      synced = rw (x.meta_kept, x.next_kept) h.synced;
      accepted_below =
          rw x.next_kept (x.below s.next_seq h.accepted_below (omega (arith, h.positive)));
      saved_below = rw (x.meta_kept, x.next_kept) h.saved_below;
      fresh = λ j l.
          let far : s.next_seq ≤ j = rw x.next_kept at l in
          x.outside j (inr (omega (arith, h.positive))) ∙ h.fresh j far;
      unused = x.outside 0 (inl (omega arith)) ∙ h.unused;
      keyed = x.keyed;
    }

-- A method that leaves the outbox alone keeps its numbering.
pub IsUntouched-IsNumbered :
    {r max : ℕ} {s t : System} → IsUntouched r s t → IsNumbered max s → IsNumbered max t
IsUntouched-IsNumbered u h = record {
  positive = rw u.next_kept h.positive;
  bounded = rw u.next_kept h.bounded;
  synced = u.synced_kept h.synced;
  accepted_below = rw (u.next_kept, u.accepted_kept) h.accepted_below;
  saved_below = elim u.saved_kept [
    | inl p ↦ omega (arith, h.saved_below, u.next_kept)
    | inr p ↦ omega (arith, h.accepted_below, u.next_kept)
  ];
  fresh = λ j l. rw u.events_kept (h.fresh j (omega (arith, u.next_kept)));
  unused = rw u.events_kept h.unused;
  keyed = λ j rec p. h.keyed j rec (rw u.events_kept at p);
}

module _ (e : Env) (f : FitsU32 e.cfg.event_outbox_max) where
  start_answered-IsNumbered :
      (st : StartResult) (s : System)
      → IsNumbered e.cfg.event_outbox_max s
      → IsNumbered e.cfg.event_outbox_max (start_answered st e s).1
  unfolding start_answered
  start_answered-IsNumbered st s h = elim (Bool-cases st.started) [
    | inl y ↦ simp y (
        IsUntouched-IsNumbered (persist_execution-IsUntouched 0 e _)
          (IsUntouched-IsNumbered {r = 0} {s = s} (ground arith) h))
    | inr n ↦ simp n h
  ]

  prepare_answered-IsNumbered :
      (prep : PrepareResult) (s : System)
      → IsNumbered e.cfg.event_outbox_max s
      → IsNumbered e.cfg.event_outbox_max (prepare_answered prep e s).1
  unfolding prepare_answered start_executor
  prepare_answered-IsNumbered prep s h = elim (Bool-cases prep.ready) [
    | inl y ↦ simp y (
        start_answered-IsNumbered _ _ (
          run_start-IsNumbered e f _ _
            (IsUntouched-IsNumbered {r = 0} {s = s} (call-IsUntouched _ refl) h)))
    | inr n ↦ simp n h
  ]

  pub launch_if-IsNumbered :
      (b : Bool) (s : System)
      → IsNumbered e.cfg.event_outbox_max s
      → IsNumbered e.cfg.event_outbox_max (launch_if b e s).1
  unfolding launch_if launch
  launch_if-IsNumbered false s h = h
  launch_if-IsNumbered true s h =
      prepare_answered-IsNumbered _ _
        (IsUntouched-IsNumbered {r = 0} {s = s} (call-IsUntouched _ refl) h)

pub advance-IsNumbered :
    (max : ℕ) (meta : FotaEventOutboxMeta) (e : Env) (s : System)
    → meta.next_sequence_no ≡ s.next_seq
    → IsNumbered max s
    → IsNumbered max (advance_watermark meta e s).1
unfolding advance_watermark
advance-IsNumbered max meta e s m h =
    elim (Bool-cases (ltb meta.accepted_sequence_no s.accepted_seq)) [
      | inl y ↦ simp y (record {
        positive = h.positive;
        bounded = h.bounded;
        synced = m;
        accepted_below = h.accepted_below;
        saved_below = h.accepted_below;
        fresh = h.fresh;
        unused = h.unused;
        keyed = h.keyed;
      })
      | inr n ↦ simp n h
    ]
