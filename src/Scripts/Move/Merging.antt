-- ===== src/Scripts/Move/Merging.antt =====
-- No file is lost in a merge of a3m/client/clientScripts/move_or_merge.py.
use a3m.Common.{
  String, ◌≡◌, ◌≢◌, refl, sym, ap, ◌∙◌, Bool, true, false, ◌==◌, ◌||◌, inl, inr, Option, none, some,
  List, [], ◌∷◌, if◌then◌else◌, arith, mem, Distinct, Exception, runtime_error, other_error, Result,
  ok, raise, eq_iff, eq_refl, eq-cases, Bool-cases, Result-cases, ◌⊎◌, ◌++◌, raise-ne-ok,
}
use a3m.Common.Dict.{lookup, insert, remove, lookup-insert, lookup-removed}
use a3m.Packages.{OsPath}
use a3m.Scripts.Move.{
  Files, is_below, rmtree, is_there, sources, landing, is_occupied, move_contents, move_file,
  move_files, merge,
}

lookup-rmtree :
    (top path : String) (files : Files)
    → is_below top path ≡ false
    → lookup path (rmtree top files) ≡ lookup path files
unfolding rmtree lookup
lookup-rmtree top path [] h = refl
lookup-rmtree top path ((p, contents) ∷ files) h = elim (Bool-cases (is_below top p)) [
  | inl q ↦ elim (eq-cases p path) [
    | inl (e, r) ↦ absurd (differ (sym h ∙ ap (is_below top) (sym e) ∙ q))
    | inr (e, r) ↦ rw (q, r) (lookup-rmtree top path files h)
  ]
  | inr q ↦ rw q (ap (λ o. if p == path then some contents else o) (lookup-rmtree top path files h))
]
  where
    differ : false ≢ true
    differ e = cc

mem-sources :
    (before : List (String × String)) (src dst : String) (after : List (String × String))
    → mem src (sources (before ++ (src, dst) ∷ after)) ≡ true
mem-sources [] src dst after = ground (arith, eq_refl src)
mem-sources ((s, t) ∷ before) src dst after = ground (arith, mem-sources before src dst after)

source_apart :
    (s src : String) (xs : List String) → mem s xs ≡ false → mem src xs ≡ true → (s == src) ≡ false
source_apart s src xs out within = elim (eq-cases s src) [
  | inl (p, e) ↦ absurd (differ (sym out ∙ ap (λ k. mem k xs) p ∙ within))
  | inr (p, e) ↦ e
]
  where
    differ : false ≢ true
    differ f = cc

module _ (os : OsPath) (is_dir : String → Bool) where
  -- A move that is not refused does not write over a file.
  landing-free :
      (src dst : String) (files : Files)
      → lookup dst files ≡ none
      → is_occupied os is_dir src dst files ≡ false
      → lookup (landing os is_dir src dst) files ≡ none
  landing-free src dst files h free = elim (Bool-cases (is_dir dst)) [
    | inl q ↦ rw q (
        absent_ (is_dir (os.join dst (os.basename src ∷ [])))
          (lookup (os.join dst (os.basename src ∷ [])) files) (rw q at free))
    | inr q ↦ rw q h
  ]
    where
      absent_ : (b : Bool) (o : Option String) → (b || is_there o) ≡ false → o ≡ none
      absent_ b none e = refl
      absent_ true (some c) e = cc
      absent_ false (some c) e = cc

  landed-kept :
      (src target path c contents : String) (files : Files)
      → lookup target files ≡ none
      → (src == path) ≡ false
      → lookup path files ≡ some contents
      → lookup path (insert target c (remove src files)) ≡ some contents
  landed-kept src target path c contents files free ne p = elim (eq-cases target path) [
    | inl (e, q) ↦ absurd (differ (sym free ∙ ap (λ k. lookup k files) e ∙ p))
    | inr (e, q) ↦
        ground
          (arith, lookup-insert target path c (remove src files), lookup-removed src path files)
  ]
    where
      differ : none ≢ some contents
      differ e = cc

  contents-kept :
      (src dst path contents : String) (here there : Option String) (files : Files)
      → lookup dst files ≡ there
      → (src == path) ≡ false
      → lookup path files ≡ some contents
      → lookup path (move_contents os is_dir src dst here there files).1 ≡ some contents
  unfolding move_contents
  contents-kept src dst path contents none there files t ne p = p
  contents-kept src dst path contents (some c) none files t ne p =
      elim (Bool-cases (is_occupied os is_dir src dst files)) [
        | inl q ↦ rw q p
        | inr q ↦ rw q (
            landed-kept src (landing os is_dir src dst) path c contents files
              (landing-free src dst files t q) ne p)
      ]
  contents-kept src dst path contents (some c) (some other) files t ne p =
      ground (arith, lookup-removed src path files)

  -- A file that is not the source of a move keeps its contents, be the move done or refused.
  move_file-kept :
      (src dst path contents : String) (files : Files)
      → (src == path) ≡ false
      → lookup path files ≡ some contents
      → lookup path (move_file os is_dir src dst files).1 ≡ some contents
  unfolding move_file
  move_file-kept src dst path contents files ne p =
      contents-kept src dst path contents (lookup src files) (lookup dst files) files refl ne p

  -- The contents are at the destination, or in it where that is a directory.
  abbrev pub IsAt : (src dst contents : String) → Files → Type 0
  IsAt src dst contents files =
      (lookup dst files ≡ some contents)
      ⊎ (lookup (landing os is_dir src dst) files ≡ some contents)

  contents-moved :
      (src dst contents : String) (here there : Option String) (files : Files)
      → lookup src files ≡ here
      → lookup dst files ≡ there
      → (src == dst) ≡ false
      → here ≡ some contents
      → (lookup src (move_contents os is_dir src dst here there files).1 ≡ some contents)
          × ((e : Exception) × ((move_contents os is_dir src dst here there files).0 ≡ raise e))
        ⊎ IsAt src dst contents (move_contents os is_dir src dst here there files).1
          × ((move_contents os is_dir src dst here there files).0 ≡ ok tt)
  unfolding move_contents
  contents-moved src dst contents none there files h t ne e = ground arith
  contents-moved src dst contents (some c) none files h t ne e =
      elim (Bool-cases (is_occupied os is_dir src dst files)) [
        | inl q ↦ rw q (inl (h ∙ e, (other_error, refl)))
        | inr q ↦
            let target = landing os is_dir src dst in
            rw q (
              inr (
                inr (
                    lookup-insert target target c (remove src files)
                    ∙ ap (λ b. if b then some c else lookup target (remove src files))
                        (eq_refl target)
                    ∙ e),
                refl,
              ))
      ]
  contents-moved src dst contents (some c) (some other) files h t ne e = elim (eq-cases c other) [
    | inl (p, q) ↦ rw q (inr (inl (ground (arith, lookup-removed src dst files)), refl))
    | inr (p, q) ↦ rw q (inl (h ∙ e, (runtime_error, refl)))
  ]

  move_files-kept :
      (walked : List (String × String)) (path contents : String) (files : Files)
      → mem path (sources walked) ≡ false
      → lookup path files ≡ some contents
      → lookup path (move_files os is_dir walked files).1 ≡ some contents
  unfolding move_files
  move_files-kept [] path contents files m p = p
  move_files-kept ((src, dst) ∷ rest) path contents files m p =
      let kept = move_file-kept src dst path contents files (ground arith) p in
      elim (Result-cases (move_file os is_dir src dst files).0) [
        | inl (done_, e) ↦
            rw (e, move_files)
              (move_files-kept rest path contents (move_file os is_dir src dst files).1
                (ground arith) kept)
        | inr (x, e) ↦ rw (e, move_files) kept
      ]

  -- A file that was walked, with its contents: where they are after the merge.
  abbrev pub IsKept : String → String → String → Result (Unit {0}) × Files → Type 0
  IsKept src dst contents outcome =
      ((lookup src outcome.1 ≡ some contents) × ((e : Exception) × (outcome.0 ≡ raise e)))
      ⊎ IsAt src dst contents outcome.1

  moved_one :
      (src dst contents : String) (rest : List (String × String)) (files : Files)
      → mem dst (sources rest) ≡ false
      → mem (landing os is_dir src dst) (sources rest) ≡ false
      → (src == dst) ≡ false
      → lookup src files ≡ some contents
      → IsKept src dst contents (move_files os is_dir ((src, dst) ∷ rest) files)
  unfolding move_files
  moved_one src dst contents rest files m m' ne p =
      elim (contents-moved src dst contents (lookup src files) (lookup dst files) files refl refl ne
        p) [
          | inl (here, (x, e)) ↦
              let refused : (move_file os is_dir src dst files).0 ≡ raise x =
                unfold move_file in e in
              rw (refused, move_files) (inl (unfold move_file in here, (x, refl)))
          | inr (there, e) ↦
              let moved : (move_file os is_dir src dst files).0 ≡ ok tt = unfold move_file in e in
              let after = (move_file os is_dir src dst files).1 in
              let at_ : IsAt src dst contents after = unfold move_file in there in
              rw (moved, move_files)
                (inr (elim at_ [
                  | inl q ↦ inl (move_files-kept rest dst contents after m q)
                  | inr q ↦
                      inr (move_files-kept rest (landing os is_dir src dst) contents after m' q)
                ]))
        ]

  -- The path is none of the files that are walked.
  move_files-IsKept :
      (before : List (String × String)) (src dst contents : String) (after : List (String × String))
      (files : Files)
      → Distinct (sources (before ++ (src, dst) ∷ after))
      → mem dst (sources (before ++ (src, dst) ∷ after)) ≡ false
      → mem (landing os is_dir src dst) (sources (before ++ (src, dst) ∷ after)) ≡ false
      → lookup src files ≡ some contents
      → IsKept src dst contents (move_files os is_dir (before ++ (src, dst) ∷ after) files)
  unfolding move_files
  move_files-IsKept [] src dst contents after files d m m' p =
      moved_one src dst contents after files (ground (arith, m)) (ground (arith, m'))
        (ground (arith, m, eq_iff src dst)) p
  move_files-IsKept ((s, t) ∷ before) src dst contents after files d m m' p =
      let kept : lookup src (move_file os is_dir s t files).1 ≡ some contents =
        move_file-kept s t src contents files
          (source_apart s src (sources (before ++ (src, dst) ∷ after)) d.0
            (mem-sources before src dst after))
          p in
      elim (Result-cases (move_file os is_dir s t files).0) [
        | inl (done_, e) ↦
            rw (e, move_files)
              (move_files-IsKept before src dst contents after (move_file os is_dir s t files).1 d.1
                (ground (arith, m)) (ground (arith, m')) kept)
        | inr (x, e) ↦ rw (e, move_files) (inl (kept, (x, refl)))
      ]

  -- A path that the merge of a directory neither moves away nor removes: it is none of the files that are
  -- walked, and not below the directory.
  abbrev pub IsOutside : (top : String) → List (String × String) → (path : String) → Type 0
  IsOutside top walked path = (mem path (sources walked) ≡ false) × (is_below top path ≡ false)

  -- No file is lost when a directory is merged into another, whose files are outside of it, not even when
  -- the merge is refused half-way: the contents of each file that is walked are at its destination after
  -- it, or in it where the destination is a directory, or still at its source, and then the merge has
  -- raised. The files are walked once.
  pub merge-IsKept :
      (top : String) (before : List (String × String)) (src dst contents : String)
      (after : List (String × String)) (files : Files)
      → Distinct (sources (before ++ (src, dst) ∷ after))
      → IsOutside top (before ++ (src, dst) ∷ after) dst
      → IsOutside top (before ++ (src, dst) ∷ after) (landing os is_dir src dst)
      → lookup src files ≡ some contents
      → IsKept src dst contents (merge os is_dir top (before ++ (src, dst) ∷ after) files)
  unfolding merge
  merge-IsKept top before src dst contents after files d out out' p =
      let walked = before ++ (src, dst) ∷ after in
      let moved = move_files os is_dir walked files in
      let kept = move_files-IsKept before src dst contents after files d out.0 out'.0 p in
      elim (Result-cases moved.0) [
        | inl (done_, e) ↦
            rw (e, merge)
              (inr (elim kept [
                | inl (here, (x, r)) ↦ absurd (raise-ne-ok (sym r ∙ e))
                | inr (inl q) ↦ inl (lookup-rmtree top dst moved.1 out.1 ∙ q)
                | inr (inr q) ↦
                    inr (lookup-rmtree top (landing os is_dir src dst) moved.1 out'.1 ∙ q)
              ]))
        | inr (x, e) ↦
            rw (e, merge)
              (elim kept [ inl (here, (y, r)) ↦ inl (here, (x, refl)) | inr there ↦ inr there ])
      ]
