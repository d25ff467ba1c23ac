-- ===== src/Review/Contradiction.antt =====
-- internal/runtime/review_room_contradiction.go: open items that share words with a decision.
use Prim.Native.String.{compare, count}
use Prim.Native.Char.{code}
use Prim.Native.Nat.{Ordering}
use layeros.Base.{
  ℕ, String, Bool, not, ◌||◌, Option, none, some, List, [], ◌∷◌, ◌++◌, is_none, if◌then◌else◌, ◌==◌,
  ltb,
}
use layeros.Text.{trim_space, is_blank, is_empty, to_lower, seen, ◌<>◌}
use layeros.Types.Review.{
  normalize_review_section, ReviewRoomResolution, ReviewRoomItem, ReviewRoom,
}
use layeros.Env.{Env}
use layeros.Review.Items.{normalize_item, normalize_optional, normalize_evidence, no_items}

abbrev stopwords : List String
stopwords =
    "a" ∷ "an" ∷ "and" ∷ "are" ∷ "before" ∷ "for" ∷ "from" ∷ "into" ∷ "item" ∷ "its" ∷ "later"
    ∷ "manual" ∷ "not" ∷ "open" ∷ "operator" ∷ "review" ∷ "room" ∷ "still" ∷ "that" ∷ "the" ∷ "this"
    ∷ "with" ∷ "without" ∷ []

-- `strings.FieldsFunc`: the runs of the characters that pass the test
flush : String → List String → List String
flush word words = if is_empty word then words else word ∷ words

fields_from : (ℕ → Bool) → String → String → List String
unfolding flush
fields_from is_word word String.[] = flush word []
fields_from is_word word (String.◌∷◌ c s) =
    let inside = fields_from is_word (word <> String.◌∷◌ c String.[]) s in
    let between = flush word (fields_from is_word String.[] s) in
    if is_word (code c) then inside else between

unfoldable pub fields_func : (ℕ → Bool) → String → List String
unfolding fields_from
fields_func is_word s = fields_from is_word String.[] s

-- `sort.Strings`
insert_sorted : String → List String → List String
insert_sorted s [] = s ∷ []
insert_sorted s (t ∷ ts) =
    let rest = insert_sorted s ts in elim (compare t s) [ Ordering.lt ↦ t ∷ rest | _ ↦ s ∷ t ∷ ts ]

sort_strings : List String → List String
unfolding insert_sorted
sort_strings [] = []
sort_strings (s ∷ ss) = insert_sorted s (sort_strings ss)

keywords_from : List String → List String → List String
keywords_from keys [] = []
keywords_from keys (raw ∷ rest) =
    let word = trim_space raw in
    let skipped = keywords_from keys rest in
    let kept = word ∷ keywords_from (word ∷ keys) rest in
    if is_blank raw || seen word stopwords || ltb (count word) 2 || seen word keys
    then skipped
    else kept

unfoldable pub keyword_set : (ℕ → Bool) → String → List String
unfolding fields_func sort_strings keywords_from
keyword_set is_word text =
    let low = trim_space (to_lower text) in
    if is_empty low then [] else sort_strings (keywords_from [] (fields_func is_word low))

join_space : List String → String
join_space [] = ""
join_space (s ∷ []) = s
join_space (s ∷ ss) = s <> " " <> join_space ss

why_part : Option String → List String
why_part none = []
why_part (some s) = trim_space s ∷ []

reason_part : Option ReviewRoomResolution → List String
reason_part none = []
reason_part (some r) = trim_space r.reason ∷ []

unfoldable pub conflict_keywords : (ℕ → Bool) → ReviewRoomItem → List String
unfolding keyword_set join_space why_part reason_part
conflict_keywords is_word item = keyword_set is_word (
    join_space (
      normalize_evidence
        (item.text ∷ item.why ∷ (why_part item.why_unresolved ++ reason_part item.resolution))))

trimmed_words : List String → List String
trimmed_words [] = []
trimmed_words (s ∷ ss) = if is_blank s then trimmed_words ss else trim_space s ∷ trimmed_words ss

common_from : List String → List String → List String
common_from right [] = []
common_from right (s ∷ ss) = if seen s right then s ∷ common_from right ss else common_from right ss

-- internal/runtime/proposal_candidate_gate.go
unfoldable pub intersect_strings : List String → List String → List String
unfolding trimmed_words common_from
intersect_strings left right = common_from (trimmed_words right) (trimmed_words left)

contradictions_from : Env → List String → List ReviewRoomItem → List String
contradictions_from env agenda [] = []
contradictions_from env agenda (d ∷ ds) =
    let decision = normalize_item env.now d in
    let rest = contradictions_from env agenda ds in
    if is_blank decision.text
      || no_items (intersect_strings agenda (conflict_keywords env.is_word decision))
    then rest
    else decision.text ∷ rest

unfoldable pub decision_contradictions : Env → List ReviewRoomItem → ReviewRoomItem → List String
unfolding contradictions_from conflict_keywords intersect_strings
decision_contradictions env decisions raw =
    let agenda = conflict_keywords env.is_word (normalize_item env.now raw) in
    if no_items agenda then [] else normalize_evidence (contradictions_from env agenda decisions)

only : List String → Option String
only (s ∷ []) = some s
only _ = none

unfoldable pub annotate_contradictions : Env → ReviewRoom → String → ReviewRoomItem → ReviewRoomItem
unfolding decision_contradictions only
annotate_contradictions env room section raw =
    let item = normalize_item env.now raw in
    let found = decision_contradictions env room.accepted item in
    let many = normalize_evidence (item.contradictions ++ found) in
    if not (normalize_review_section section == "open") || no_items found
    then item
    else normalize_item env.now (record item {
      contradictions = many;
      contradiction =
          if is_none item.contradiction then normalize_optional (only many) else item.contradiction;
    })
