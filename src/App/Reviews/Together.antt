-- ===== src/App/Reviews/Together.antt =====
-- Calls of submitReview of ReviewItemVC.swift on several devices at the same time.
use yum_quest.Base.{
  ℕ, zero, suc, ◌+◌, ◌≡◌, refl, ap, Bool, true, false, Option, none, some, List, [], ◌∷◌, ◌++◌,
  arith, if◌then◌else◌,
}
use yum_quest.App.Swift.{at, chain}
use yum_quest.App.Reviews.{
  Request, check_item, set_count, set_total, set_average, read_count, write_count, read_total,
  write_total, write_average, add_review, Posted, Node, Session, World, first_review, next_review,
  new_session, put, has_child, perform, next_request, step, run,
}

-- How many reviews the requests still add, where both branches of check_item add one.
abbrev pub adds : List Request → ℕ
adds [] = 0
adds (r ∷ rest) = elim r [ check_item ↦ 1 | add_review ↦ 1 | _ ↦ 0 ] + adds rest

-- The reviews that `q` holds of: how many are in a list, and how many are still to be sent.
abbrev pub count : {Text : Type 0} → (Posted Text → Bool) → List (Posted Text) → ℕ
count q [] = 0
count q (p ∷ ps) = (if q p then 1 else 0) + count q ps

abbrev pub weigh : {Text : Type 0} → (Posted Text → Bool) → Posted Text → List Request → ℕ
weigh q p rs = if q p then adds rs else 0

abbrev pub unsent : {Text : Type 0} → (Posted Text → Bool) → List (Session Text) → ℕ
unsent q [] = 0
unsent q (s ∷ rest) = weigh q s.posted s.requests + unsent q rest

count-append :
    {Text : Type 0} (q : Posted Text → Bool) (ps rs : List (Posted Text))
    → count q (ps ++ rs) ≡ count q ps + count q rs
count-append q [] rs = ground arith
count-append q (p ∷ ps) rs = ground (arith, count-append q ps rs)

-- A call asks whether the item has data only as its last request so far.
abbrev pub IsReady : List Request → Type 0
IsReady [] = Unit
IsReady (r ∷ rest) = elim r [ check_item ↦ rest ≡ [] | _ ↦ IsReady rest ]

abbrev pub AllReady : {Text : Type 0} → List (Session Text) → Type 0
AllReady [] = Unit
AllReady (s ∷ rest) = IsReady s.requests × AllReady rest

IsReady-branch : (b : Bool) → IsReady (if b then next_review else first_review)
IsReady-branch true = tt
IsReady-branch false = tt

adds-branch : (b : Bool) → adds (if b then next_review else first_review) ≡ 1
adds-branch true = refl
adds-branch false = refl

-- The calls on these devices, none of which has made a request.
abbrev pub calls : {Text : Type 0} → List (Posted Text) → List (Session Text)
calls [] = []
calls (p ∷ ps) = new_session p ∷ calls ps

calls-AllReady : {Text : Type 0} (ps : List (Posted Text)) → AllReady (calls ps)
calls-AllReady [] = tt
calls-AllReady (p ∷ ps) = (refl, calls-AllReady ps)

unsent-calls :
    {Text : Type 0} (q : Posted Text → Bool) (ps : List (Posted Text))
    → unsent q (calls ps) ≡ count q ps
unsent-calls q [] = refl
unsent-calls q (p ∷ ps) = ground (arith, unsent-calls q ps)

module _ {Text Double : Type 0} (divide : ℕ → ℕ → Double) (whole : ℕ → Double)
    (q : Posted Text → Bool) where
  -- Reviews in the database, and those on their way.
  abbrev pub all_reviews : World Text Double → ℕ
  all_reviews w = count q w.node.reviews + unsent q w.sessions

  -- After one request there are `n` reviews, with those on their way.
  abbrev Keeps : ℕ → Option (Session Text × Node Text Double) → Type 0
  Keeps n none = Unit
  Keeps n (some after) =
      (count q after.1.reviews + weigh q after.0.posted after.0.requests ≡ n)
      × IsReady after.0.requests

  next_request-Keeps :
      (rs : List Request) (s : Session Text) (node : Node Text Double)
      → rs ≡ s.requests
      → IsReady rs
      → Keeps (count q node.reviews + weigh q s.posted rs) (next_request divide whole rs s node)
  unfolding next_request perform
  next_request-Keeps [] s node e h = (rw (← e) refl, rw (← e) h)
  next_request-Keeps (check_item ∷ rest) s node e h =
      (ground (arith, adds-branch (has_child node), h), IsReady-branch (has_child node))
  next_request-Keeps (set_count ∷ rest) s node e h = (ground arith, h)
  next_request-Keeps (set_total ∷ rest) s node e h = (ground arith, h)
  next_request-Keeps (set_average ∷ rest) s node e h = (ground arith, h)
  next_request-Keeps (read_count ∷ rest) s node e h = reads node.count
    where
      reads :
          (o : Option ℕ)
          → Keeps
              (count q node.reviews + weigh q s.posted (read_count ∷ rest))
              (chain o (λ v. some (record s { requests = rest; value = v }, node)))
      reads none = tt
      reads (some v) = (ground arith, h)
  next_request-Keeps (write_count ∷ rest) s node e h = (ground arith, h)
  next_request-Keeps (read_total ∷ rest) s node e h = reads node.total_ratings
    where
      reads :
          (o : Option ℕ)
          → Keeps
              (count q node.reviews + weigh q s.posted (read_total ∷ rest))
              (chain o (λ v. some (record s { requests = rest; value = v }, node)))
      reads none = tt
      reads (some v) = (ground arith, h)
  next_request-Keeps (write_total ∷ rest) s node e h = (ground arith, h)
  next_request-Keeps (write_average ∷ rest) s node e h = (ground arith, h)
  next_request-Keeps (add_review ∷ rest) s node e h =
      (ground (arith, count-append q node.reviews (s.posted ∷ [])), h)

  put-AllReady :
      (ss : List (Session Text)) (i : ℕ) (s : Session Text)
      → AllReady ss
      → IsReady s.requests
      → AllReady (put ss i s)
  put-AllReady [] i s h g = tt
  put-AllReady (t ∷ ss) zero s h g = (g, h.1)
  put-AllReady (t ∷ ss) (suc i) s h g = (h.0, put-AllReady ss i s h.1 g)

  unsent-put :
      (ss : List (Session Text)) (i : ℕ) (s t : Session Text)
      → at ss i ≡ some s
      → unsent q (put ss i t) + weigh q s.posted s.requests
        ≡ unsent q ss + weigh q t.posted t.requests
  unsent-put [] i s t e = absurd (ground (arith, e))
  unsent-put (x ∷ ss) zero s t e = ground (arith, e)
  unsent-put (x ∷ ss) (suc i) s t e = ground (arith, unsent-put ss i s t e)

  abbrev get_or_self : Session Text → Option (Session Text) → Session Text
  get_or_self x none = x
  get_or_self x (some y) = y

  at-IsReady :
      (ss : List (Session Text)) (i : ℕ) (s : Session Text)
      → at ss i ≡ some s
      → AllReady ss
      → IsReady s.requests
  at-IsReady [] i s e h = absurd (ground (arith, e))
  at-IsReady (x ∷ ss) zero s e h = let same : x ≡ s = ap (get_or_self x) e in rw same at h.0
  at-IsReady (x ∷ ss) (suc i) s e h = at-IsReady ss i s e h.1

  abbrev StepKeeps : ℕ → Option (World Text Double) → Type 0
  StepKeeps n none = Unit
  StepKeeps n (some w) = (all_reviews w ≡ n) × AllReady w.sessions

  StepKeeps-same :
      (n m : ℕ) (o : Option (World Text Double)) → n ≡ m → StepKeeps n o → StepKeeps m o
  StepKeeps-same n m o e h = rw (← e) h

  after-Keeps :
      (w : World Text Double) (i : ℕ) (s : Session Text)
      → at w.sessions i ≡ some s
      → AllReady w.sessions
      → (o : Option (Session Text × Node Text Double))
      → Keeps (count q w.node.reviews + weigh q s.posted s.requests) o
      → StepKeeps
          (all_reviews w)
          (chain o (λ after. some (record { node = after.1; sessions = put w.sessions i after.0 })))
  after-Keeps w i s e h none g = tt
  after-Keeps w i s e h (some after) g = (
    ground (arith, g.0, unsent-put w.sessions i s after.0 e),
    put-AllReady w.sessions i after.0 h g.1,
  )

  step-Keeps :
      (i : ℕ) (w : World Text Double)
      → AllReady w.sessions
      → StepKeeps (all_reviews w) (step divide whole i w)
  unfolding step
  step-Keeps i w h = go (at w.sessions i) refl
    where
      go :
          (o : Option (Session Text))
          → at w.sessions i ≡ o
          → StepKeeps (all_reviews w) (elim o [
            | none ↦ some w
            | some s ↦
                chain
                  (next_request divide whole s.requests s w.node)
                  (λ after. some (record { node = after.1; sessions = put w.sessions i after.0 }))
          ])
      go none e = (refl, h)
      go (some s) e =
          after-Keeps w i s e h (next_request divide whole s.requests s w.node)
            (next_request-Keeps s.requests s w.node refl (at-IsReady w.sessions i s e h))

  run-StepKeeps :
      (is : List ℕ) (w : World Text Double)
      → AllReady w.sessions
      → StepKeeps (all_reviews w) (run divide whole is w)
  unfolding run
  run-StepKeeps [] w h = (refl, h)
  run-StepKeeps (i ∷ is) w h =
      go (λ v g. run-StepKeeps is v g) (step divide whole i w) (step-Keeps i w h)
    where
      go :
          ((v : World Text Double)
            → AllReady v.sessions
            → StepKeeps (all_reviews v) (run divide whole is v))
          → (o : Option (World Text Double)) → StepKeeps (all_reviews w) o
          → StepKeeps (all_reviews w) (chain o (λ v. run divide whole is v))
      go rest none g = tt
      go rest (some v) g =
          StepKeeps-same (all_reviews v) (all_reviews w) (run divide whole is v) g.0 (rest v g.1)

  -- Calls of submitReview on any number of devices, of users who are signed in, with their requests in
  -- any order, neither lose nor double a review: unless a call crashes, whatever `q` says of a review,
  -- those it holds of in the database and those it holds of that are still to be sent are as many as
  -- those it holds of that there were and those among the calls together.
  pub run-reviews :
      (is : List ℕ) (ps : List (Posted Text)) (node : Node Text Double) (w : World Text Double)
      → run divide whole is (record { node = node; sessions = calls ps }) ≡ some w
      → count q w.node.reviews + unsent q w.sessions ≡ count q node.reviews + count q ps
  run-reviews is ps node w e =
      let start : World Text Double = record { node = node; sessions = calls ps } in
      let kept = run-StepKeeps is start (calls-AllReady ps) in
      let same : StepKeeps (all_reviews start) (some w) = rw e at kept in
      ground (arith, same.0, unsent-calls q ps)
