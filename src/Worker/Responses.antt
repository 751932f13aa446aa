-- ===== src/Worker/Responses.antt =====
-- What becomes of the jobs of a response (src/lib/ZBWorkerBase.ts).
use zeebe_client_node_js.Base.{
  ◌≡◌, ◌⊎◌, inl, inr, subst, true, false, Option, some, List, [], ◌∷◌, String, pos, ◌+ℤ◌, length,
  arith, Option-cases, Bool-cases,
}
use zeebe_client_node_js.Variables.{ActivatedJob, parse_variables_and_custom_headers_to_json}
use zeebe_client_node_js.Worker.State.{Worker}
use zeebe_client_node_js.Worker.Jobs.{
  ignored, malformed, handed_over, parse_jobs, handle_job_response,
}

module _ {J : Type 0} (parse : String → Option J) where
  -- The job that a handler sees is the one that the gateway sent, its two documents parsed.
  abbrev pub IsParsed : ActivatedJob String → ActivatedJob J → Type 0
  IsParsed job seen =
      (parse job.variables ≡ some seen.variables)
      × (parse job.custom_headers ≡ some seen.custom_headers)
      × (job.key ≡ seen.key)
      × (job.process_instance_key ≡ seen.process_instance_key)
      × (job.retries ≡ seen.retries)

  abbrev pub AllParsed : List (ActivatedJob String) → List (ActivatedJob J) → Type 0
  AllParsed [] [] = Unit
  AllParsed (x ∷ xs) (y ∷ ys) = IsParsed x y × AllParsed xs ys
  AllParsed _ _ = ⊥

  parse-IsParsed :
      (job : ActivatedJob String) (seen : ActivatedJob J)
      → parse_variables_and_custom_headers_to_json parse job ≡ some seen
      → IsParsed job seen
  unfolding parse_variables_and_custom_headers_to_json
  parse-IsParsed job seen h = ground arith

  parse_jobs_inv :
      (job : ActivatedJob String) (jobs : List (ActivatedJob String)) {seen : List (ActivatedJob J)}
      → parse_jobs parse (job ∷ jobs) ≡ some seen
      → (y : ActivatedJob J) × (ys : List (ActivatedJob J))
        × (parse_variables_and_custom_headers_to_json parse job ≡ some y)
        × (parse_jobs parse jobs ≡ some ys)
        × (y ∷ ys ≡ seen)
  unfolding parse_jobs
  parse_jobs_inv job jobs h =
      elim (Option-cases (parse_variables_and_custom_headers_to_json parse job)) [
        | inl e ↦ absurd (ground arith)
        | inr (y, e) ↦ elim (Option-cases (parse_jobs parse jobs)) [
          | inl d ↦ absurd (ground arith)
          | inr (ys, d) ↦ (y, ys, e, d, ground arith)
        ]
      ]

  parse_jobs_nil : {seen : List (ActivatedJob J)} → parse_jobs parse [] ≡ some seen → [] ≡ seen
  unfolding parse_jobs
  parse_jobs_nil h = ground arith

  parse_jobs-AllParsed :
      (jobs : List (ActivatedJob String)) {seen : List (ActivatedJob J)}
      → parse_jobs parse jobs ≡ some seen
      → AllParsed jobs seen
  parse_jobs-AllParsed [] h = subst (AllParsed []) (parse_jobs_nil h) tt
  parse_jobs-AllParsed (job ∷ jobs) h =
      let (y, ys, p, q, e) = parse_jobs_inv job jobs h in
      subst (AllParsed (job ∷ jobs)) e (parse-IsParsed job y p, parse_jobs-AllParsed jobs q)

  -- A response to a worker that is closing changes nothing and no job of it is handled. Otherwise
  -- its jobs all count as active, whether or not their texts are JSON, and those that are handed
  -- over are the ones that were sent, in their order, with their documents parsed.
  pub handle_job_response_lem :
      (w : Worker) (jobs : List (ActivatedJob String))
      → let (w', delivery) = handle_job_response parse w jobs in
        ((w.closing ≡ true) × (w' ≡ w) × (delivery ≡ ignored))
        ⊎ ((w.closing ≡ false)
            × (w'.active_jobs ≡ w.active_jobs +ℤ pos (length jobs))
            × ((delivery ≡ malformed)
                ⊎ ((seen : List (ActivatedJob J)) × (delivery ≡ handed_over seen)
                    × AllParsed jobs seen)))
  unfolding handle_job_response
  handle_job_response_lem w jobs = elim (Bool-cases w.closing) [
    | inl c ↦ inl (c, ground arith, ground arith)
    | inr c ↦ inr (
      c,
      ground arith,
      elim (Option-cases (parse_jobs parse jobs)) [
        | inl e ↦ inl (rw (c, e))
        | inr (seen, e) ↦ inr (seen, rw (c, e), parse_jobs-AllParsed jobs e)
      ],
    )
  ]
