-- ===== src/Amr/TaskBridge/Stored.antt =====
-- The reports in the file of the agent as a list: what adding and removing do to it, and which
-- message ids wait there (robot_ws/src/amr_agent/src/persist/pending_report_store.cpp).

use amr_warehouse_collaborat.Prelude.{
  find, some, ==→eq, String, ◌==◌, eq_iff, eq_refl, filter_comm, filter_idem, filter-append, Bool,
  true, false, not, ◌||◌, ◌≡◌, refl, ap, ◌∙◌, List, [], ◌∷◌, ◌++◌, any, any-append, filter, arith,
  if◌then◌else◌, Bool-cases, inl, inr,
}
use amr_warehouse_collaborat.Amr.TaskBridge.Reports.{
  PendingReport, ReportFile, missing, corrupt, reports, is_complete, load_reports, save, has_id,
  add, is_acked, remove_by_message_ids,
}

load_idem : (file : ReportFile) → filter is_complete (load_reports file) ≡ load_reports file
unfolding load_reports
load_idem missing = refl
load_idem corrupt = refl
load_idem (reports rs) = filter_idem is_complete rs

pub load-remove :
    (writable : Bool) (ids : List String) (file : ReportFile)
    → load_reports (remove_by_message_ids writable ids file) ≡ (
        if writable
        then filter (λ r. not (is_acked ids r)) (load_reports file)
        else load_reports file)
unfolding remove_by_message_ids save load_reports
load-remove false ids file = refl
load-remove true ids file =
    filter_comm is_complete (λ r. not (is_acked ids r)) (load_reports file)
    ∙ ap (filter (λ r. not (is_acked ids r))) (load_idem file)

load-add :
    (writable : Bool) (r : PendingReport) (file : ReportFile)
    → load_reports (add writable r file) ≡ (
        if any (has_id r.message_id) (load_reports file)
        then load_reports file
        else if writable
        then load_reports file ++ filter is_complete (r ∷ [])
        else load_reports file)
unfolding add save
load-add writable r file = elim (Bool-cases (any (has_id r.message_id) (load_reports file))) [
  | inl old ↦ rw old
  | inr new ↦ rw new (written writable)
]
  where
    written :
        (w : Bool)
        → load_reports (if w then reports (load_reports file ++ r ∷ []) else file)
          ≡ (if w then load_reports file ++ filter is_complete (r ∷ []) else load_reports file)
    written true =
        unfold load_reports in
        (filter-append is_complete (load_reports file) (r ∷ [])
          ∙ ap (λ rs. rs ++ filter is_complete (r ∷ [])) (load_idem file))
    written false = refl

-- A report with this message id waits in the file.
abbrev pub Waits : String → ReportFile → Type 0
Waits message_id file = any (has_id message_id) (load_reports file) ≡ true

any-if :
    (q : PendingReport → Bool) (r : PendingReport) (rs : List PendingReport) (b : Bool)
    → any q rs ≡ true
    → any q (if b then r ∷ rs else rs) ≡ true
any-if q r rs true h = ground arith
any-if q r rs false h = h

any-filter :
    (id : String) (acked : List String) (rs : List PendingReport)
    → any (λ m. m == id) acked ≡ false
    → any (has_id id) rs ≡ true
    → any (has_id id) (filter (λ r. not (is_acked acked r)) rs) ≡ true
unfolding has_id is_acked
any-filter id acked [] free h = h
any-filter id acked (r ∷ rs) free h = elim (Bool-cases (r.message_id == id)) [
  | inl same ↦
      rw (ap (λ m'. any (λ m. m == m') acked) ((eq_iff r.message_id id).0 same) ∙ free) (rw same)
  | inr other ↦
      any-if (has_id id) r (filter (λ x. not (is_acked acked x)) rs) (not (is_acked acked r))
        (any-filter id acked rs free (ground arith))
]

pub Waits-remove :
    (writable : Bool) (acked : List String) (id : String) (file : ReportFile)
    → any (λ m. m == id) acked ≡ false
    → Waits id file
    → Waits id (remove_by_message_ids writable acked file)
Waits-remove writable acked id file free h =
    ap (any (has_id id)) (load-remove writable acked file) ∙ kept writable
  where
    kept :
        (w : Bool)
        → any (has_id id) (
            if w
            then filter (λ r. not (is_acked acked r)) (load_reports file)
            else load_reports file)
          ≡ true
    kept true = any-filter id acked (load_reports file) free h
    kept false = h

pub Waits-add :
    (writable : Bool) (r : PendingReport) (id : String) (file : ReportFile)
    → Waits id file
    → Waits id (add writable r file)
Waits-add writable r id file h =
    ap (any (has_id id)) (load-add writable r file)
    ∙ kept (any (has_id r.message_id) (load_reports file)) writable
  where
    kept :
        (old w : Bool)
        → any (has_id id) (
            if old
            then load_reports file
            else if w
            then load_reports file ++ filter is_complete (r ∷ [])
            else load_reports file)
          ≡ true
    kept true w = h
    kept false true =
        any-append (has_id id) (load_reports file) (filter is_complete (r ∷ []))
        ∙ ap (λ b. b || any (has_id id) (filter is_complete (r ∷ []))) h
    kept false false = h

-- The first report with the id of `r` is `r`.
abbrev pub Holds : PendingReport → ReportFile → Type 0
Holds r file = find (has_id r.message_id) (load_reports file) ≡ some r

find-filter :
    (id : String) (acked : List String) (rs : List PendingReport)
    → any (λ m. m == id) acked ≡ false
    → find (has_id id) (filter (λ r. not (is_acked acked r)) rs) ≡ find (has_id id) rs
unfolding has_id is_acked
find-filter id acked [] h = refl
find-filter id acked (r ∷ rs) h = elim (Bool-cases (r.message_id == id)) [
  | inl e ↦
      let same = ==→eq r.message_id id e in
      ground (arith, e, h, ap (λ x. any (λ m. m == x) acked) same, find-filter id acked rs h)
  | inr e ↦ ground (arith, e, find-filter id acked rs h)
]

pub Holds-remove :
    (writable : Bool) (acked : List String) (r : PendingReport) (file : ReportFile)
    → any (λ m. m == r.message_id) acked ≡ false
    → Holds r file
    → Holds r (remove_by_message_ids writable acked file)
Holds-remove writable acked r file free h =
    ap (find (has_id r.message_id)) (load-remove writable acked file) ∙ kept writable
  where
    kept :
        (w : Bool)
        → find (has_id r.message_id) (
            if w
            then filter (λ x. not (is_acked acked x)) (load_reports file)
            else load_reports file)
          ≡ some r
    kept true = find-filter r.message_id acked (load_reports file) free ∙ h
    kept false = h

find-more :
    (p : PendingReport → Bool) (rs more : List PendingReport) (r : PendingReport)
    → find p rs ≡ some r
    → find p (rs ++ more) ≡ some r
find-more p [] more r h = absurd (ground (arith, h))
find-more p (x ∷ rs) more r h = ground (arith, h, find-more p rs more r)

find-last :
    (p : PendingReport → Bool) (rs : List PendingReport) (r : PendingReport)
    → any p rs ≡ false
    → p r ≡ true
    → find p (rs ++ r ∷ []) ≡ some r
find-last p [] r h k = ground (arith, k)
find-last p (x ∷ rs) r h k = ground (arith, h, find-last p rs r)

pub Holds-add :
    (writable : Bool) (x r : PendingReport) (file : ReportFile)
    → Holds r file
    → Holds r (add writable x file)
Holds-add writable x r file h =
    ap (find (has_id r.message_id)) (load-add writable x file)
    ∙ kept (any (has_id x.message_id) (load_reports file)) writable
  where
    kept :
        (old w : Bool)
        → find (has_id r.message_id) (
            if old
            then load_reports file
            else if w
            then load_reports file ++ filter is_complete (x ∷ [])
            else load_reports file)
          ≡ some r
    kept true w = h
    kept false true =
        find-more (has_id r.message_id) (load_reports file) (filter is_complete (x ∷ [])) r h
    kept false false = h

pub Holds-add_self :
    (r : PendingReport) (file : ReportFile)
    → is_complete r ≡ true
    → any (has_id r.message_id) (load_reports file) ≡ false
    → Holds r (add true r file)
unfolding has_id
Holds-add_self r file whole new =
    ap (find (has_id r.message_id)) (load-add true r file)
    ∙ rw (new, whole)
        (find-last (has_id r.message_id) (load_reports file) r new (eq_refl r.message_id))

pub Waits-add_self :
    (r : PendingReport) (file : ReportFile)
    → is_complete r ≡ true
    → Waits r.message_id (add true r file)
unfolding has_id
Waits-add_self r file whole =
    ap (any (has_id r.message_id)) (load-add true r file)
    ∙ own (any (has_id r.message_id) (load_reports file)) refl
  where
    own :
        (old : Bool)
        → any (has_id r.message_id) (load_reports file) ≡ old
        → any
            (has_id r.message_id)
            (if old then load_reports file else load_reports file ++ filter is_complete (r ∷ []))
          ≡ true
    own true e = e
    own false e =
        any-append (has_id r.message_id) (load_reports file) (filter is_complete (r ∷ []))
        ∙ rw (whole, e) (ap (λ same. same || false) (eq_refl r.message_id))
