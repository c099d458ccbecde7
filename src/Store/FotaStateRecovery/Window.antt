-- ===== src/Store/FotaStateRecovery/Window.antt =====
-- The deduplication window that a confirmed report leaves (`reconcileCompleted`).
use iov_vehicle_cgw_fota.Prelude.{
  ℕ, ◌≡◌, ◌≤◌, ◌<◌, refl, true, ◌&&◌, inl, inr, Bool-cases, ltb, List, [], ◌∷◌, ◌++◌, length, arith,
  eq_iff,
}
use iov_vehicle_cgw_fota.Store.FotaState.{
  LastSuccessState, DedupeEntry, DedupeState, ActiveJobState,
}
use iov_vehicle_cgw_fota.Store.FotaStateRecovery.{holds_report, entry_of, evict, with_entry}

evict-bounded : (max : ℕ) (es : List DedupeEntry) → 0 < max → length (evict max es) ≤ max
unfolding evict
evict-bounded max [] h = omega arith
evict-bounded max (e ∷ es) h = ground (arith, evict-bounded max es h)

-- The newest entry stays.
evict-last :
    (max : ℕ) (es : List DedupeEntry) (e : DedupeEntry)
    → (kept : List DedupeEntry) × (evict max (es ++ e ∷ []) ≡ kept ++ e ∷ [])
unfolding evict
evict-last max [] e = ([], ground arith)
evict-last max (x ∷ es) e =
    let (kept, h) = evict-last max es e in
    elim (Bool-cases (ltb max (length (x ∷ es ++ e ∷ [])) && ltb 0 max)) [
      | inl full ↦ (kept, rw full h)
      | inr room ↦ (x ∷ es, rw room refl)
    ]

holds_report-append :
    (es : List DedupeEntry) (e : DedupeEntry) (l : LastSuccessState)
    → holds_report (e ∷ []) l ≡ true
    → holds_report (es ++ e ∷ []) l ≡ true
unfolding holds_report
holds_report-append [] e l h = h
holds_report-append (x ∷ es) e l h = ground (arith, holds_report-append es e l h)

own_entry :
    (job : ActiveJobState) (l : LastSuccessState) (d : DedupeState)
    → holds_report (entry_of job l d ∷ []) l ≡ true
unfolding holds_report entry_of
own_entry job l d = ground (arith, eq_iff l.report_id l.report_id)

-- When the window is bounded, it holds at most that many entries after a confirmed report has been
-- added, and the report is among them.
pub with_entry-bounded :
    (job : ActiveJobState) (l : LastSuccessState) (d : DedupeState)
    → 0 < d.max_entries
    → (length (with_entry job l d).entries ≤ d.max_entries)
      × (holds_report (with_entry job l d).entries l ≡ true)
unfolding with_entry
with_entry-bounded job l d h =
    let (kept, e) = evict-last d.max_entries d.entries (entry_of job l d) in
    let own : holds_report (entry_of job l d ∷ []) l ≡ true = own_entry job l d in
    (
      evict-bounded d.max_entries (d.entries ++ entry_of job l d ∷ []) h,
      rw e (holds_report-append kept (entry_of job l d) l own),
    )
