-- ===== src/Packages/Status.antt =====
-- `get_package_status` of a3m/server/packages.py. The rows of `models.Job` stand in the order of their
-- creation; `lower` is `str.lower`. The identifiers of the queue's active packages come with the
-- `subid` of each.
use a3m.Common.{
  ℕ, String, ◌≡◌, ◌≢◌, refl, sym, ap, ◌∙◌, Bool, false, ◌||◌, ◌==◌, inl, inr, Option, none, some,
  List, [], ◌∷◌, if◌then◌else◌, arith, does_not_exist, other_error, Result, ok, raise, eq_iff,
  ok-injective, raise-ne-ok, ◌⊎◌,
}
use a3m.Common.Dict.{Dict, lookup}
use a3m.Common.Text.{contains}

pub record JobRow : Type 0 where
  pub jobuuid : String
  pub sipuuid : String
  pub jobtype : String
  pub currentstep : ℕ
  pub microservicegroup : String
  pub microservicechainlink : String

pub record Sip : Type 0 where
  pub pk : String
  pub transfer_id : Option String

pub data Status : Type 0 where
  processing complete failed rejected : Status

pub record PackageStatus : Type 0 where
  pub status : Status
  pub job : Option String
  pub jobs : List JobRow

-- The last row of the unit, after those that were seen.
latest_from : Option JobRow → String → List JobRow → Option JobRow
latest_from latest unit_id [] = latest
latest_from latest unit_id (row ∷ rows) =
    latest_from (if row.sipuuid == unit_id then some row else latest) unit_id rows

unfoldable pub get_latest_job : String → List JobRow → Option JobRow
unfolding latest_from
get_latest_job unit_id rows = latest_from none unit_id rows

-- The rows of the SIP and of its transfer.
abbrev is_of : Sip → JobRow → Bool
is_of sip row =
    (row.sipuuid == sip.pk) || elim sip.transfer_id [ none ↦ false | some id_ ↦ row.sipuuid == id_ ]

unfoldable pub jobs_of : Sip → List JobRow → List JobRow
jobs_of sip [] = []
jobs_of sip (row ∷ rows) = let rest = jobs_of sip rows in if is_of sip row then row ∷ rest else rest

module _ (lower : String → String) where
  unfoldable pub status_of_job : JobRow → Result Status
  status_of_job job =
      if contains "failed" (lower job.microservicegroup)
      then ok failed
      else if contains "reject" (lower job.microservicegroup)
      then ok rejected
      else if job.jobtype == "a3m - Store AIP"
      then ok complete
      else raise other_error

  abbrev pub with_jobs : Sip → List JobRow → JobRow → Result Status → Result PackageStatus
  with_jobs sip rows job (raise e) = raise e
  with_jobs sip rows job (ok status) =
      ok (record { status = status; job = some job.microservicegroup; jobs = jobs_of sip rows })

  -- The package is inactive: its latest job, else the latest of its transfer.
  pub of_transfer : Sip → List JobRow → Option JobRow → Result PackageStatus
  of_transfer sip rows none = ok (record { status = processing; job = none; jobs = [] })
  of_transfer sip rows (some job) = with_jobs sip rows job (status_of_job job)

  pub of_inactive : Sip → List JobRow → Option String → Option JobRow → Result PackageStatus
  unfolding of_transfer
  of_inactive sip rows transfer_id (some job) = with_jobs sip rows job (status_of_job job)
  of_inactive sip rows none none = raise other_error
  of_inactive sip rows (some transfer_id) none =
      of_transfer sip rows (get_latest_job transfer_id rows)

  abbrev pub of_active : Option JobRow → PackageStatus
  of_active none = record { status = processing; job = none; jobs = [] }
  of_active (some job) = record { status = processing; job = some job.jobtype; jobs = [] }

  pub of_package : Option String → String → Sip → List JobRow → Result PackageStatus
  unfolding of_inactive
  of_package (some subid) package_id sip rows = ok (of_active (get_latest_job subid rows))
  of_package none package_id sip rows =
      of_inactive sip rows sip.transfer_id (get_latest_job package_id rows)

  -- `PackageNotFoundError` is raised where there is no SIP.
  pub of_sip : Dict String → String → List JobRow → Option Sip → Result PackageStatus
  unfolding of_package
  of_sip active_packages package_id rows none = raise does_not_exist
  of_sip active_packages package_id rows (some sip) =
      of_package (lookup package_id active_packages) package_id sip rows

  unfoldable pub get_package_status :
      Dict String → (String → Option Sip) → List JobRow → String → Result PackageStatus
  unfolding of_sip
  get_package_status active_packages sips rows package_id =
      of_sip active_packages package_id rows (sips package_id)

  -- The latest row of the package, or of its transfer.
  abbrev pub IsLatest : JobRow → String → Sip → List JobRow → Type 0
  IsLatest job package_id sip rows =
      (get_latest_job package_id rows ≡ some job)
      ⊎ ((transfer_id : String) × (sip.transfer_id ≡ some transfer_id)
          × (get_latest_job package_id rows ≡ none)
          × (get_latest_job transfer_id rows ≡ some job))

  -- The latest job is of the type that stores the AIP, whatever became of it.
  abbrev pub IsStoring : String → Sip → List JobRow → Type 0
  IsStoring package_id sip rows =
      (job : JobRow) × (job.jobtype ≡ "a3m - Store AIP") × IsLatest job package_id sip rows

  status_of_job-complete :
      (job : JobRow) → status_of_job job ≡ ok complete → job.jobtype ≡ "a3m - Store AIP"
  unfolding status_of_job
  status_of_job-complete job e = ground (arith, eq_iff job.jobtype "a3m - Store AIP")

  with_jobs-complete :
      (sip : Sip) (rows : List JobRow) (job : JobRow) (found : Result Status) (s : PackageStatus)
      → with_jobs sip rows job found ≡ ok s
      → s.status ≡ complete
      → found ≡ ok complete
  with_jobs-complete sip rows job (raise x) s e c = absurd (raise-ne-ok e)
  with_jobs-complete sip rows job (ok status) s e c =
      ap ok (ap (λ (p : PackageStatus). p.status) (ok-injective e) ∙ c)

  processing-ne-complete : processing ≢ complete
  processing-ne-complete e = cc

  of_transfer-complete :
      (sip : Sip) (rows : List JobRow) (found : Option JobRow) (s : PackageStatus)
      → of_transfer sip rows found ≡ ok s
      → s.status ≡ complete
      → (job : JobRow) × (found ≡ some job) × (job.jobtype ≡ "a3m - Store AIP")
  unfolding of_transfer
  of_transfer-complete sip rows none s e c =
      absurd (processing-ne-complete (ap (λ (p : PackageStatus). p.status) (ok-injective e) ∙ c))
  of_transfer-complete sip rows (some job) s e c = (
    job,
    refl,
    status_of_job-complete job (with_jobs-complete sip rows job (status_of_job job) s e c),
  )

  of_inactive-complete :
      (package_id : String) (sip : Sip) (rows : List JobRow) (transfer_id : Option String)
      (found : Option JobRow) (s : PackageStatus)
      → sip.transfer_id ≡ transfer_id
      → get_latest_job package_id rows ≡ found
      → of_inactive sip rows transfer_id found ≡ ok s
      → s.status ≡ complete
      → IsStoring package_id sip rows
  unfolding of_inactive
  of_inactive-complete package_id sip rows transfer_id (some job) s t f e c = (
    job,
    status_of_job-complete job (with_jobs-complete sip rows job (status_of_job job) s e c),
    inl f,
  )
  of_inactive-complete package_id sip rows none none s t f e c = absurd (raise-ne-ok e)
  of_inactive-complete package_id sip rows (some transfer_id) none s t f e c =
      let (job, found, stored) =
        of_transfer-complete sip rows (get_latest_job transfer_id rows) s e c in
      (job, stored, inr (transfer_id, t, f, found))

  of_package-complete :
      (active : Option String) (package_id : String) (sip : Sip) (rows : List JobRow)
      (s : PackageStatus)
      → of_package active package_id sip rows ≡ ok s
      → s.status ≡ complete
      → (active ≡ none) × IsStoring package_id sip rows
  unfolding of_package
  of_package-complete (some subid) package_id sip rows s e c =
      absurd (active (get_latest_job subid rows) (ok-injective e))
    where
      active : (o : Option JobRow) → of_active o ≡ s → ⊥
      active none f = processing-ne-complete (ap (λ (p : PackageStatus). p.status) f ∙ c)
      active (some job) f = processing-ne-complete (ap (λ (p : PackageStatus). p.status) f ∙ c)
  of_package-complete none package_id sip rows s e c = (
    refl,
    of_inactive-complete package_id sip rows sip.transfer_id (get_latest_job package_id rows) s refl
        refl e c,
  )

  -- A package is reported as complete only when it is active no more and the latest job of the package,
  -- or of its transfer where the package has none, is of the type "a3m - Store AIP"; the status of that job is
  -- not looked at.
  pub get_package_status_complete :
      (active_packages : Dict String) (sips : String → Option Sip) (rows : List JobRow)
      (package_id : String) (sip : Sip) (s : PackageStatus)
      → sips package_id ≡ some sip
      → get_package_status active_packages sips rows package_id ≡ ok s
      → s.status ≡ complete
      → (lookup package_id active_packages ≡ none) × IsStoring package_id sip rows
  unfolding get_package_status of_sip
  get_package_status_complete active_packages sips rows package_id sip s there e c =
      of_package-complete (lookup package_id active_packages) package_id sip rows s
        (ap (of_sip active_packages package_id rows) (sym there) ∙ e) c
