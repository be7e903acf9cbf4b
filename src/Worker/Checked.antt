-- ===== src/Worker/Checked.antt =====
-- What `transfer` (src/tod-dl.py) has checked when it returns "complete".
use tod_dl.Worker.Keeps.{attempt_event-Keeps}
use tod_dl.Worker.Integrity.{promote-Good}
use tod_dl.Worker.Sound.{and_then-returned}
use tod_dl.Worker.Events.{response_of, attempt_event}
use tod_dl.Worker.Transfer.Run.{skip_existing}
use tod_dl.Worker.Recovery.Completes.{IsFinished}
use tod_dl.Worker.Failures.{
  expected_size_from_response, is_incomplete_body_failure, is_disk_full_failure,
  is_access_denied_failure, is_unavailable_failure,
}
use tod_dl.Controller.{Headers}
use tod_dl.Worker.Outcomes.{
  Never, if-cases, then-Never, returned-Never, Good, Good-IsVacuous, Never-Good, and_then-cases,
  option-cases,
}
use tod_dl.Manifest.{Row}
use tod_dl.Files.{dangling, dangling, file, Node, directory, special, link_to}
use tod_dl.Worker.{◌>>◌, Outcome, System, World, Step}
use tod_dl.Worker.Transfer.Promotion.{
  differs, size_mismatch, check_staged, refuse_staging, validate, promote, is_known,
}
use tod_dl.Worker.Transfer.{
  give_up, fail_attempt, fail_retry, fail_unavailable, fail_access_denied, fail_disk_full, Engine,
}
use tod_dl.Base.{
  ℕ, String, Bool, false, Option, none, some, List, ◌≡◌, refl, length, ltb, str_eq, ◌&&◌, lookup,
  if◌then◌else◌, ◌+◌,
}

-- The staging file that `node` is was compared with the expected hash, if there is one, and with the
-- size that the response announces, if it announces one; and the item is finished with its bytes.
pub record IsChecked (sys : System) (row : Row) (target staging : String) (node : Option Node)
    (response : Headers) (w : World) : Type 0 where
  pub bytes : List ℕ
  pub fetched : node ≡ some (file bytes)
  pub agrees : differs sys (sys.sha256 bytes) row.expected_sha256 ≡ false
  pub whole : size_mismatch (expected_size_from_response sys response) (length bytes) ≡ none
  pub finished : IsFinished row.url target staging (sys.sha256 bytes) bytes w

-- Chains of steps before an answer.
abbrev N : Outcome String × World → Type 0
N = Never

module _ (sys : System) (eng : Engine) (row : Row) where
  give_up-Never :
      (staging : String) (digest : Option String) (reason detail : String) (fields : Row → Row)
      (w : World)
      → Never (give_up sys eng row staging digest reason detail fields w)
  unfolding give_up
  give_up-Never staging digest reason detail fields w = then-Never _ _ _ (λ u w.
      then-Never _ _ _ (λ c w. then-Never _ _ _ (λ u w. then-Never _ _ _ (λ m w.
        then-Never _ _ _ (λ u w. then-Never _ _ _ (λ u w x. returned-Never "review" x refl))))))

  fail_disk_full-Never :
      (worker size : ℕ) (w : World) → Never (fail_disk_full sys eng row worker size w)
  unfolding fail_disk_full
  fail_disk_full-Never worker size w = then-Never _ _ _ (λ u w. then-Never _ _ _ (λ c w.
      then-Never _ _ _ (λ u w. then-Never _ _ _ (λ m w.
        then-Never _ _ _
          (λ u w. then-Never _ _ _ (λ u w x. returned-Never "local_failure" x refl))))))

  fail_access_denied-Never :
      (worker size : ℕ) (w : World) → Never (fail_access_denied sys eng row worker size w)
  unfolding fail_access_denied
  fail_access_denied-Never worker size w = then-Never _ _ _ (λ u w.
      then-Never _ _ _ (λ c w.
        then-Never _ _ _ (λ u w. then-Never _ _ _ (λ m w x. returned-Never "review" x refl))))

  fail_unavailable-Never :
      (worker size : ℕ) (w : World) → Never (fail_unavailable sys eng row worker size w)
  unfolding fail_unavailable
  fail_unavailable-Never worker size w = then-Never _ _ _ (λ u w. then-Never _ _ _ (λ c w.
      then-Never _ _ _ (λ u w. then-Never _ _ _ (λ m w x. returned-Never "unavailable" x refl))))

  fail_retry-Never : (worker size : ℕ) (w : World) → Never (fail_retry sys eng row worker size w)
  unfolding fail_retry
  fail_retry-Never worker size w = then-Never _ _ _ (λ u w. then-Never _ _ _ (λ c w.
      then-Never _ _ _ (λ u w. then-Never _ _ _ (λ m w.
        then-Never _ _ _ (λ u w. then-Never _ _ _ (λ u w x. returned-Never "failed" x refl))))))

  pub fail_attempt-Never :
      (worker : ℕ) (staging : String) (size : ℕ) (stalled : Bool) (w : World)
      → Never (fail_attempt sys eng row worker staging size stalled w)
  unfolding fail_attempt
  fail_attempt-Never worker staging size stalled w =
      let short = ltb 0 size && is_incomplete_body_failure sys eng.error && stalled in
      let full = is_disk_full_failure sys eng.error in
      let denied = is_access_denied_failure sys eng.error in
      let absent = is_unavailable_failure sys eng.error in
      let m1 = give_up sys eng row staging none "incomplete_body" eng.error (λ r. r) in
      let m2 = fail_disk_full sys eng row worker size in
      let m3 = fail_access_denied sys eng row worker size in
      let m4 = fail_unavailable sys eng row worker size in
      let m5 = fail_retry sys eng row worker size in
      let n4 : Step String = if absent then m4 else m5 in
      let n3 : Step String = if denied then m3 else n4 in
      let n2 : Step String = if full then m2 else n3 in
      if-cases N short m1 n2 w
        (λ t. give_up-Never staging none "incomplete_body" eng.error (λ r. r) w)
        (λ t.
          if-cases N full m2 n3 w (λ t. fail_disk_full-Never worker size w)
            (λ t.
              if-cases N denied m3 n4 w (λ t. fail_access_denied-Never worker size w)
                (λ t.
                  if-cases N absent m4 m5 w (λ t. fail_unavailable-Never worker size w)
                    (λ t. fail_retry-Never worker size w))))

  pub skip_existing-Never : (size : ℕ) (w : World) → Never (skip_existing sys eng row size w)
  unfolding skip_existing
  skip_existing-Never size w = then-Never _ _ _ (λ u w x. returned-Never "existing" x refl)

module _ (sys : System) (eng : Engine) (row : Row) (target stored staging : String) (worker : ℕ)
    (apart : str_eq staging target ≡ false) where
  refuse_staging-Never :
      (w : World) → Never (refuse_staging sys eng row target stored staging worker w)
  unfolding refuse_staging
  refuse_staging-Never w =
      then-Never _ _ _ (λ u w.
        then-Never _ _ _ (λ c w. then-Never _ _ _ (λ m w x. returned-Never "review" x refl)))

  abbrev C : Option Node → Headers → World → Type 0
  C = IsChecked sys row target staging

  -- A staging file that failed a check is given up.
  abbrev failed : List ℕ → String → String → Step String
  failed bytes reason detail =
      give_up sys eng row staging (some (sys.sha256 bytes)) reason detail
        (λ r. record r { sha256 = some (sys.sha256 bytes); review_code = some reason })

  abbrev passed : Option ℕ → List ℕ → Step String
  passed expected bytes = do
    attempt_event eng.clock row.url (row.attempts + 1) "success"
    promote sys eng row target stored staging worker (sys.sha256 bytes) (is_known expected)

  abbrev sized : Option ℕ → List ℕ → Step String
  sized expected bytes = elim (size_mismatch expected (length bytes)) as (λ _. Step String) [
    | some detail ↦ failed bytes "size_mismatch" detail
    | none ↦ passed expected bytes
  ]

  failed-Never :
      (bytes : List ℕ) (reason detail : String) (w : World) → Never (failed bytes reason detail w)
  failed-Never bytes reason detail w =
      give_up-Never sys eng row staging (some (sys.sha256 bytes)) reason detail
        (λ r. record r { sha256 = some (sys.sha256 bytes); review_code = some reason }) w

  passed-Good :
      (bytes : List ℕ) (response : Headers) (w : World)
      → lookup staging w.files ≡ some (file bytes)
      → differs sys (sys.sha256 bytes) row.expected_sha256 ≡ false
      → size_mismatch (expected_size_from_response sys response) (length bytes) ≡ none
      → Good
          (C (some (file bytes)) response)
          (passed (expected_size_from_response sys response) bytes w)
  passed-Good bytes response w staged agrees whole =
      let F = C (some (file bytes)) response in
      and_then-cases (Good F) (Good-IsVacuous F) _ _ _ (λ u e f. record {
        bytes = bytes;
        fetched = refl;
        agrees = agrees;
        whole = whole;
        finished =
            promote-Good sys eng row target stored staging worker apart bytes _ _
              (attempt_event-Keeps (λ files. lookup staging files ≡ some (file bytes)) _ _ _ _ w
                staged)
              f;
      })

  judged-Good :
      (bytes : List ℕ) (response : Headers) (w : World)
      → lookup staging w.files ≡ some (file bytes)
      → Good (C (some (file bytes)) response) (
          (if differs sys (sys.sha256 bytes) row.expected_sha256
              then failed bytes "checksum_mismatch" "checksum mismatch"
              else sized (expected_size_from_response sys response) bytes)
            w)
  judged-Good bytes response w staged =
      let F = C (some (file bytes)) response in
      let expected = expected_size_from_response sys response in
      if-cases (Good F) (differs sys (sys.sha256 bytes) row.expected_sha256)
        (failed bytes "checksum_mismatch" "checksum mismatch") (sized expected bytes) w
        (λ t. Never-Good F _ (failed-Never bytes "checksum_mismatch" "checksum mismatch" w))
        (λ agrees.
          option-cases (Good F) (size_mismatch expected (length bytes)) (passed expected bytes)
            (failed bytes "size_mismatch") w
            (λ whole. passed-Good bytes response w staged agrees whole)
            (λ detail t. Never-Good F _ (failed-Never bytes "size_mismatch" detail w)))

  check_staged-Good :
      (bytes : List ℕ) (w : World)
      → lookup staging w.files ≡ some (file bytes)
      → Good
          (C (some (file bytes)) (response_of row.url w))
          (check_staged sys eng row target stored staging worker bytes w)
  unfolding check_staged response_of
  check_staged-Good bytes w staged =
      let F = C (some (file bytes)) (response_of row.url w) in
      let v = Good-IsVacuous F in
      and_then-returned (Good F) _ tt _ _ refl (
        and_then-returned (Good F) _ tt _ _ refl (
          and_then-returned (Good F) _ tt _ _ refl (
            and_then-returned (Good F) _ (response_of row.url w) _ _ refl
              (judged-Good bytes (response_of row.url w) _ staged))))

  pub validate-Good :
      (w : World)
      → Good
          (C (lookup staging w.files) (response_of row.url w))
          (validate sys eng row target stored staging worker w)
  unfolding validate
  validate-Good w =
      and_then-returned (Good (C (lookup staging w.files) (response_of row.url w))) _
        (lookup staging w.files) _ _ refl (node-Good (lookup staging w.files) refl)
    where
      refused :
          (F : World → Type 0) → Good F (refuse_staging sys eng row target stored staging worker w)
      refused F = Never-Good F _ (refuse_staging-Never w)

      node-Good :
          (o : Option Node)
          → lookup staging w.files ≡ o
          → Good (C o (response_of row.url w)) (
              (elim o as (λ _. Step String) [
                | none ↦ refuse_staging sys eng row target stored staging worker
                | some n ↦ elim n as (λ _. Step String) [
                  | file bytes ↦ check_staged sys eng row target stored staging worker bytes
                  | directory size ↦ refuse_staging sys eng row target stored staging worker
                  | special size ↦ refuse_staging sys eng row target stored staging worker
                  | link_to to ↦ refuse_staging sys eng row target stored staging worker
                  | dangling ↦ refuse_staging sys eng row target stored staging worker
                ]
              ])
                w)
      node-Good none e = refused (C none (response_of row.url w))
      node-Good (some (file bytes)) e = check_staged-Good bytes w e
      node-Good (some (directory size)) e =
          refused (C (some (directory size)) (response_of row.url w))
      node-Good (some (special size)) e = refused (C (some (special size)) (response_of row.url w))
      node-Good (some (link_to to)) e = refused (C (some (link_to to)) (response_of row.url w))
      node-Good (some dangling) e = refused (C (some dangling) (response_of row.url w))
