-- ===== src/App/Reviews.antt =====
-- YumQuest/YumQuest/View/ReviewItemVC.swift: submitReview, which writes a review of an item and the
-- item's count, total and average of ratings to the database. Devices submit at the same time, so each
-- request to the database is a step of its own. The snapshot that answers observeSingleEvent is one
-- step, and the setValue in its closure another one; the closures run in the order in which the code
-- asks for the snapshots. The children of a new review (date, review, rating) are written in one step,
-- and the upload of the image, with its forced unwraps, is left out; the item has an entryId. `Text` is
-- the type of strings and `Double` that of averages.
pub mod Alone
pub mod Together
pub mod Lost
use yum_quest.Base.{
  ℕ, zero, suc, ◌+◌, Bool, true, false, Option, none, some, List, [], ◌∷◌, ◌++◌, if◌then◌else◌,
}
use yum_quest.App.Swift.{at, chain, ◌>>=◌}

-- An entry of userIDsReviews. A rating is a Double there, but always a whole number.
pub record Posted (Text : Type 0) : Type 0 where
  pub user : Text
  pub date : Text
  pub review : Text
  pub rating : ℕ

-- What submitReview has when it is called: the uid of Auth.auth().currentUser, `none` where nobody is
-- signed in, the date, the text and the rating.
pub record Submission (Text : Type 0) : Type 0 where
  pub user : Option Text
  pub date : Text
  pub review : Text
  pub rating : ℕ

abbrev pub posted_by : {Text : Type 0} → Text → Submission Text → Posted Text
posted_by user c = record { user = user; date = c.date; review = c.review; rating = c.rating }

-- The item in the database; a child that has not been written is `none`.
pub record Node (Text Double : Type 0) : Type 0 where
  pub count : Option ℕ
  pub total_ratings : Option ℕ
  pub average_rating : Option Double
  pub reviews : List (Posted Text)

-- The requests of submitReview: has the item data (check_item); the four writes for an item without
-- data; and the snapshots and writes for an item with data. Both write the review.
pub data Request : Type 0 where
  check_item set_count set_total set_average : Request
  read_count write_count read_total write_total write_average : Request
  add_review : Request

-- A call of submitReview after print(userID!): the review, the variables `value` (of the last snapshot), `newCount` and
-- `newTotal`, and the requests it still has to make.
pub record Session (Text : Type 0) : Type 0 where
  pub posted : Posted Text
  pub value : ℕ
  pub new_count : ℕ
  pub new_total : ℕ
  pub requests : List Request

pub record World (Text Double : Type 0) : Type 0 where
  pub node : Node Text Double
  pub sessions : List (Session Text)

-- The requests of the two branches.
abbrev pub first_review : List Request
first_review = set_count ∷ set_total ∷ set_average ∷ add_review ∷ []

abbrev pub next_review : List Request
next_review = add_review ∷ read_count ∷ write_count ∷ read_total ∷ write_total ∷ write_average ∷ []

module _ {Text : Type 0} where
  -- The call before its first request, of a user who is signed in.
  abbrev pub new_session : Posted Text → Session Text
  new_session p = record {
    posted = p;
    value = 0;
    new_count = 0;
    new_total = 0;
    requests = check_item ∷ [];
  }

  -- sessions[i] = s
  abbrev pub put : List (Session Text) → ℕ → Session Text → List (Session Text)
  put [] i s = []
  put (t ∷ rest) zero s = s ∷ rest
  put (t ∷ rest) (suc i) s = t ∷ put rest i s

  module _ {Double : Type 0} where
    abbrev pub empty_node : Node Text Double
    empty_node = record { count = none; total_ratings = none; average_rating = none; reviews = [] }

    -- snapshot.hasChild(itemID): a node is there as long as anything is below it.
    unfoldable pub has_child : Node Text Double → Bool
    has_child node = elim node.count [
      | some c ↦ true
      | none ↦ elim node.total_ratings [
        | some t ↦ true
        | none ↦ elim node.average_rating [
          | some a ↦ true
          | none ↦ elim node.reviews [ [] ↦ false | p ∷ rest ↦ true ]
        ]
      ]
    ]

-- `divide` is the division of Doubles, of whole numbers here, and `whole` the Double of a rating.
module _ {Text Double : Type 0} (divide : ℕ → ℕ → Double) (whole : ℕ → Double) where
  -- One request of a session; `none` is a crash, of `as!` on a child that is not there.
  unfoldable pub perform :
      Request → Session Text → Node Text Double → Option (Session Text × Node Text Double)
  unfolding has_child
  perform check_item s node =
      some (record s { requests = if has_child node then next_review else first_review }, node)
  perform set_count s node = some (s, record node { count = some 1 })
  perform set_total s node = some (s, record node { total_ratings = some s.posted.rating })
  perform set_average s node =
      some (s, record node { average_rating = some (whole s.posted.rating) })
  perform read_count s node = do value ← node.count; some (record s { value = value }, node)
  perform write_count s node =
      some (record s { new_count = s.value + 1 }, record node { count = some (s.value + 1) })
  perform read_total s node = do value ← node.total_ratings; some (record s { value = value }, node)
  perform write_total s node =
      let total = s.value + s.posted.rating in
      some (record s { new_total = total }, record node { total_ratings = some total })
  perform write_average s node =
      some (s, record node { average_rating = some (divide s.new_total s.new_count) })
  perform add_review s node = some (s, record node { reviews = node.reviews ++ (s.posted ∷ []) })

  -- The next request of a session, where it has one.
  unfoldable pub next_request :
      List Request → Session Text → Node Text Double → Option (Session Text × Node Text Double)
  unfolding perform
  next_request [] s node = some (s, node)
  next_request (r ∷ rest) s node = perform r (record s { requests = rest }) node

  -- The next request of session `i`.
  unfoldable pub step : ℕ → World Text Double → Option (World Text Double)
  unfolding next_request
  step i w = elim (at w.sessions i) [
    | none ↦ some w
    | some s ↦ do
      after ← next_request s.requests s w.node
      some (record { node = after.1; sessions = put w.sessions i after.0 })
  ]

  -- The sessions make requests in the order of a schedule.
  unfoldable pub run : List ℕ → World Text Double → Option (World Text Double)
  unfolding step
  run [] w = some w
  run (i ∷ is) w = do next ← step i w; run is next

  -- A call of submitReview that nothing else comes between; no call makes more than seven requests.
  -- `print(userID!)` comes first, and crashes where nobody is signed in.
  unfoldable pub submit_review : Submission Text → Node Text Double → Option (Node Text Double)
  unfolding run
  submit_review c node = do
    user ← c.user
    w ←
        run (0 ∷ 0 ∷ 0 ∷ 0 ∷ 0 ∷ 0 ∷ 0 ∷ [])
          (record { node = node; sessions = new_session (posted_by user c) ∷ [] })
    some w.node

  -- Calls one after the other.
  unfoldable pub submit_all : List (Submission Text) → Node Text Double → Option (Node Text Double)
  unfolding submit_review
  submit_all [] node = some node
  submit_all (p ∷ ps) node = do next ← submit_review p node; submit_all ps next
