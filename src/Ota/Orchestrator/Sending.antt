-- ===== src/Ota/Orchestrator/Sending.antt =====
-- What the sending loop of `doExecute` does to the stored events.
use native.Mathlib.Decide.{ℕ_discrete}
use iov_vehicle_cgw_fota.Prelude.{
  ℕ, zero, suc, ◌+◌, ◌≤◌, ◌<◌, ◌≡◌, ◌≢◌, refl, sym, ◌∙◌, ◌⊎◌, inl, inr, false, Option, none, some,
  arith, Bool-cases, str_eq, eq_iff,
}
use iov_vehicle_cgw_fota.Store.CloudState.{FotaEventOutboxRecord}
use iov_vehicle_cgw_fota.Ota.Messages.{EventDisposition}
use iov_vehicle_cgw_fota.Ota.Ports.{Reply}
use iov_vehicle_cgw_fota.Ota.Orchestrator.System.{System, Env}
use iov_vehicle_cgw_fota.Ota.Orchestrator.Outbox.{
  Sending, event_replied, send_payload, send_event, send_events,
}

-- An event needs no further sending: it was acknowledged, or has no payload to send.
abbrev pub IsSent : FotaEventOutboxRecord → Type 0
IsSent rec = (rec.send_status ≡ "ACKED") ⊎ ((rec.send_status ≡ "SENT") × (rec.event_pb_hex ≡ ""))

-- The event under a key has that key as its sequence number.
abbrev pub IsKeyed : System → Type 0
IsKeyed s =
    (k : ℕ) (rec : FotaEventOutboxRecord) → s.store.events k ≡ some rec → rec.sequence_no ≡ k

-- What one round of the loop does for the event under `k`.
record Round (k : ℕ) (before after : Sending) (s t : System) : Type 0 where
  others : (j : ℕ) → j ≢ k → t.store.events j ≡ s.store.events j
  keyed : (rec : FotaEventOutboxRecord) → t.store.events k ≡ some rec → rec.sequence_no ≡ k
  next_kept : t.next_seq ≡ s.next_seq
  meta_kept : t.store.event_outbox_meta ≡ s.store.event_outbox_meta
  grows : s.accepted_seq ≤ t.accepted_seq
  reached : (t.accepted_seq ≡ s.accepted_seq) ⊎ (t.accepted_seq ≡ k)
  clean : after.send_error ≡ false → before.send_error ≡ false
  sent :
      after.send_error ≡ false
      → (rec : FotaEventOutboxRecord) → t.store.events k ≡ some rec
      → IsSent rec

-- The loop leaves the events outside its range alone; if it ends with no error, it began with none
-- and every event in its range is sent.
pub record Sent (rounds seq : ℕ) (before after : Sending) (s t : System) : Type 0 where
  pub outside : (j : ℕ) → (j < seq) ⊎ (seq + rounds ≤ j) → t.store.events j ≡ s.store.events j
  pub keyed : IsKeyed t
  pub next_kept : t.next_seq ≡ s.next_seq
  pub meta_kept : t.store.event_outbox_meta ≡ s.store.event_outbox_meta
  pub grows : s.accepted_seq ≤ t.accepted_seq
  pub below : (n : ℕ) → s.accepted_seq < n → seq + rounds ≤ n → t.accepted_seq < n
  pub clean : after.send_error ≡ false → before.send_error ≡ false
  pub sent :
      after.send_error ≡ false
      → (j : ℕ) (rec : FotaEventOutboxRecord) → seq ≤ j
      → j < seq + rounds
      → t.store.events j ≡ some rec
      → IsSent rec

module _ (e : Env) where
  replied-Round :
      (k : ℕ) (rec : FotaEventOutboxRecord) (reply : Reply EventDisposition) (sending : Sending)
      (s : System)
      → rec.sequence_no ≡ k
      → let (sending', t) = event_replied rec reply sending e s in Round k sending sending' s t
  unfolding event_replied
  replied-Round k rec (Reply.fault w) sending s h = record {
    others = λ j n. ground arith;
    keyed = λ r p. ground arith;
    next_kept = refl;
    meta_kept = refl;
    grows = ground arith;
    reached = ground arith;
    clean = λ x. absurd (cc);
    sent = λ x. absurd (cc);
  }
  replied-Round k rec (Reply.response d) sending s h = record {
    others = λ j n. ground arith;
    keyed = λ r p. ground arith;
    next_kept = ground arith;
    meta_kept = ground arith;
    grows = ground arith;
    reached = ground arith;
    clean = λ x. ground arith;
    sent = λ x r p. ground arith;
  }

  payload-Round :
      (k : ℕ) (rec : FotaEventOutboxRecord) (sending : Sending) (s : System)
      → rec.sequence_no ≡ k
      → let (sending', t) = send_payload rec sending e s in Round k sending sending' s t
  unfolding send_payload
  payload-Round k rec sending s h =
      let r = replied-Round k rec _ sending _ h in
      record {
        others = r.others;
        keyed = r.keyed;
        next_kept = r.next_kept;
        meta_kept = r.meta_kept;
        grows = r.grows;
        reached = r.reached;
        clean = r.clean;
        sent = r.sent;
      }

  event-Round :
      (k : ℕ) (sending : Sending) (s : System) (o : Option FotaEventOutboxRecord)
      → s.store.events k ≡ o
      → ((rec : FotaEventOutboxRecord) → o ≡ some rec → rec.sequence_no ≡ k)
      → let (sending', t) = send_event o sending e s in Round k sending sending' s t
  unfolding send_event
  event-Round k sending s none h key = record {
    others = λ j n. refl;
    keyed = λ r p. cc;
    next_kept = refl;
    meta_kept = refl;
    grows = omega arith;
    reached = inl refl;
    clean = λ x. x;
    sent = λ x r p. absurd (cc);
  }
  event-Round k sending s (some rec) h key = elim (Bool-cases (str_eq rec.send_status "ACKED")) [
    | inl y ↦ simp y (record {
      others = λ j n. refl;
      keyed = λ r p. key r (sym h ∙ p);
      next_kept = refl;
      meta_kept = refl;
      grows = omega arith;
      reached = inl refl;
      clean = λ x. x;
      sent = λ x r p. ground (arith, eq_iff rec.send_status "ACKED");
    })
    | inr n ↦ simp n (elim (Bool-cases (str_eq rec.event_pb_hex "")) [
      | inl y ↦ simp y (record {
        others = λ j n. ground (arith, key rec refl);
        keyed = λ r p. ground (arith, key rec refl);
        next_kept = refl;
        meta_kept = refl;
        grows = omega arith;
        reached = inl refl;
        clean = λ x. x;
        sent = λ x r p. ground (arith, key rec refl, eq_iff rec.event_pb_hex "");
      })
      | inr m ↦ simp m (payload-Round k rec sending s (key rec refl))
    ])
  ]

  step-IsKeyed : (k : ℕ) (a b : Sending) (s t : System) → Round k a b s t → IsKeyed s → IsKeyed t
  step-IsKeyed k a b s t r h j rec p = elim (ℕ_discrete j k) [
    | yes same ↦ r.keyed rec (rw same at p) ∙ sym same
    | no other ↦ h j rec (sym (r.others j other) ∙ p)
  ]

  pub send_events-Sent :
      (rounds seq : ℕ) (sending : Sending) (s : System)
      → IsKeyed s
      → let (sending', t) = send_events rounds seq sending e s in
        Sent rounds seq sending sending' s t
  unfolding send_events
  send_events-Sent zero seq sending s h = record {
    outside = λ j x. refl;
    keyed = h;
    next_kept = refl;
    meta_kept = refl;
    grows = omega arith;
    below = λ n a r. a;
    clean = λ x. x;
    sent = λ x j rec low high p. absurd (omega arith);
  }
  send_events-Sent (suc rounds) seq sending s h =
      let (next, t) = send_event (s.store.events seq) sending e s in
      let first = event-Round seq sending s (s.store.events seq) refl (h seq) in
      let rest =
        send_events-Sent rounds (suc seq) next t (step-IsKeyed seq sending next s t first h) in
      record {
        outside = λ j x.
            rest.outside j (elim x [ inl low ↦ inl (omega arith) | inr high ↦ inr (omega arith) ])
            ∙ first.others j (elim x [ inl low ↦ λ q. omega arith | inr high ↦ λ q. omega arith ]);
        keyed = rest.keyed;
        next_kept = rest.next_kept ∙ first.next_kept;
        meta_kept = rest.meta_kept ∙ first.meta_kept;
        grows = omega (arith, first.grows, rest.grows);
        below = λ n a r.
            rest.below n (elim first.reached [ inl p ↦ omega arith | inr p ↦ omega arith ])
              (omega arith);
        clean = λ x. first.clean (rest.clean x);
        sent = λ x j rec low high p. elim (ℕ_discrete j seq) [
          | yes same ↦
              first.sent (rest.clean x) rec
                (sym (rest.outside seq (inl (omega arith))) ∙ (rw same at p))
          | no other ↦ rest.sent x j rec (omega arith) (omega arith) p
        ];
      }
