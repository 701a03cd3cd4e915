-- ===== src/Account/Live.antt =====
-- The live projection of internal/account/runtime.go and its log.
use vulos_mail.Common.{
  ℕ, ◌≡◌, refl, ap, sym, subst, ◌∙◌, String, List, [], ◌∷◌, some, arith, Option-cases, inl, inr,
}
use vulos_mail.Threading.{seed}
use vulos_mail.Model.{BlobRef, Envelope, LabelId, Flag}
use vulos_mail.Event.{Event}
use vulos_mail.EventLog.{Log, IsLawful}
use vulos_mail.Projection
use vulos_mail.Projection.{message_id_exists, apply, apply_all}
use vulos_mail.Projection.Invariant.{IsValid, IsValid-new}
use vulos_mail.Projection.Fold.{
  Numbered, Numbered-snoc, keep-Numbered, apply_all-append, apply_all-IsValid,
}
use vulos_mail.Account.{
  Raw, Services, Runtime, Op, ingest, rebuild, thread_seed, open_runtime, commit, add_message,
  deliver, ingest_message, step, run,
}

module _ (l : Log) (law : IsLawful l) (s : Services) where
  pub record IsLive (rt : Runtime l s) : Type 0 where
    pub folded : apply_all Projection.new (law.records rt.log) ≡ rt.proj
    pub numbered : Numbered 0 (law.records rt.log)

  -- what `IsLive` speaks of
  pub touch :
      (rt rt' : Runtime l s) → rt.log ≡ rt'.log → rt.proj ≡ rt'.proj → IsLive rt → IsLive rt'
  touch rt rt' e f h = record {
    folded = ap (λ (x : l.State). apply_all Projection.new (law.records x)) (sym e) ∙ h.folded ∙ f;
    numbered = rw (sym e) h.numbered;
  }

  commit-IsLive :
      (now : ℕ) (actor : String) (e : Event) (rt : Runtime l s)
      → IsLive rt
      → IsLive (commit l s now actor e rt).1
  unfolding commit apply_all
  commit-IsLive now actor e rt h = elim (Option-cases (l.append rt.log now actor e).0) [
    | inl no_record ↦ rw no_record (record {
      folded = rw (law.refused rt.log now actor e no_record) h.folded;
      numbered = rw (law.refused rt.log now actor e no_record) h.numbered;
    })
    | inr (r, appended) ↦ rw appended (record {
      folded = rw (law.appended rt.log now actor e r appended).0 (
          apply_all-append Projection.new (law.records rt.log) (r ∷ [])
          ∙ ap (λ (a : Projection.Account). apply a r) h.folded);
      numbered = rw (law.appended rt.log now actor e r appended).0 (
          Numbered-snoc 0 (law.records rt.log) r h.numbered
            (omega (arith, (law.appended rt.log now actor e r appended).1)));
    })
  ]

  add_message-IsLive :
      (now : ℕ) (raw : Raw) (ref : BlobRef) (env : Envelope) (labels : List LabelId)
      (flags : List Flag) (rt : Runtime l s)
      → IsLive rt
      → IsLive (add_message l s now raw ref env labels flags rt).1
  unfolding add_message
  add_message-IsLive now raw ref env labels flags rt h =
      commit-IsLive now "ingest" _ _ (touch rt _ refl refl h)

  deliver-IsLive :
      (now : ℕ) (raw : Raw) (ref : BlobRef) (env : Envelope) (labels : List LabelId)
      (flags : List Flag) (rt : Runtime l s)
      → IsLive rt
      → IsLive (deliver l s now raw ref env labels flags rt).1
  unfolding deliver
  deliver-IsLive now raw ref env labels flags rt h =
      elim (Option-cases (message_id_exists rt.proj env.message_id_header)) [
        | inl new ↦ rw (new, deliver) (add_message-IsLive now raw ref env labels flags rt h)
        | inr (id, known) ↦ rw (known, deliver) h
      ]

  ingest_message-IsLive :
      (now : ℕ) (raw : Raw) (labels : List LabelId) (flags : List Flag) (rt : Runtime l s)
      → IsLive rt
      → IsLive (ingest_message l s now raw labels flags rt).1
  unfolding ingest_message
  ingest_message-IsLive now raw labels flags rt h = elim (Option-cases (s.parse raw)) [
    | inl bad ↦ rw (bad, ingest_message) h
    | inr (env, parsed) ↦ elim (Option-cases (s.put rt.store raw).0) [
      | inl failed ↦ rw (parsed, ingest_message) (rw failed (touch rt _ refl refl h))
      | inr (ref, stored) ↦
          rw (parsed, ingest_message)
            (rw stored (deliver-IsLive now raw ref env labels flags _ (touch rt _ refl refl h)))
    ]
  ]

  step-IsLive : (now : ℕ) (op : Op) (rt : Runtime l s) → IsLive rt → IsLive (step l s now op rt)
  unfolding step
  step-IsLive now (ingest raw labels flags) rt h = ingest_message-IsLive now raw labels flags rt h
  step-IsLive now _ rt h = commit-IsLive now "user" _ rt h

  run-IsLive : (ops : List (ℕ × Op)) (rt : Runtime l s) → IsLive rt → IsLive (run l s ops rt)
  unfolding run
  run-IsLive [] rt h = h
  run-IsLive ((now, op) ∷ ops) rt h = run-IsLive ops (step l s now op rt) (step-IsLive now op rt h)

  rebuild-Numbered :
      (log : l.State)
      → Numbered 0 (law.records log)
      → rebuild l log ≡ some (apply_all Projection.new (law.records log))
  unfolding rebuild
  rebuild-Numbered log n =
      rw (law.read log 1, rebuild) (rw (keep-Numbered 0 (law.records log) n) refl)

  rebuild-IsLive : (rt : Runtime l s) → IsLive rt → rebuild l rt.log ≡ some rt.proj
  rebuild-IsLive rt h = rebuild-Numbered rt.log h.numbered ∙ ap some h.folded

  pub open-IsLive :
      (log : l.State) (store : s.Store) (gen : s.Gen) (rt : Runtime l s)
      → Numbered 0 (law.records log)
      → open_runtime l s log store gen ≡ some rt
      → IsLive rt
  unfolding open_runtime
  open-IsLive log store gen rt n e =
      let opened : Runtime l s = record {
        log = log;
        store = store;
        ids = gen;
        threader = seed (thread_seed (apply_all Projection.new (law.records log)).messages) [];
        proj = apply_all Projection.new (law.records log);
        notified = [];
      } in
      let same : opened ≡ rt = cc (rw (rebuild-Numbered log n, open_runtime) at e) in
      subst IsLive same (record { folded = refl; numbered = n })

  -- Opened on a log whose records are numbered from 1, and after any calls, failing ones included,
  -- the live projection is what a rebuild from the log gives.
  pub rebuild-run :
      (log : l.State) (store : s.Store) (gen : s.Gen) (rt : Runtime l s) (ops : List (ℕ × Op))
      → Numbered 0 (law.records log)
      → open_runtime l s log store gen ≡ some rt
      → rebuild l (run l s ops rt).log ≡ some (run l s ops rt).proj
  rebuild-run log store gen rt ops n e =
      rebuild-IsLive (run l s ops rt) (run-IsLive ops rt (open-IsLive log store gen rt n e))

  -- Opened on a log whose records are numbered from 1, and after any calls, failing ones included,
  -- the projection is valid: each stored message stands in the ingest order and in its thread, and the
  -- order, the threads and the Message-ID index name stored messages only.
  pub run-IsValid :
      (log : l.State) (store : s.Store) (gen : s.Gen) (rt : Runtime l s) (ops : List (ℕ × Op))
      → Numbered 0 (law.records log)
      → open_runtime l s log store gen ≡ some rt
      → IsValid (run l s ops rt).proj
  run-IsValid log store gen rt ops n e =
      let h = run-IsLive ops rt (open-IsLive log store gen rt n e) in
      subst IsValid h.folded
        (apply_all-IsValid Projection.new (law.records (run l s ops rt).log) IsValid-new)
