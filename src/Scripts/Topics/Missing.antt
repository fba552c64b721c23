-- ===== src/Scripts/Topics/Missing.antt =====
-- scripts/create_topics.py: which topics are made, and what a second run makes.
use realtime_finance_bot.Base.{
  Bool, true, false, List, [], ◌∷◌, ◌++◌, Str, str_eq_refl, ◌≡◌, refl, sym, ap, ◌∙◌, Dict, ℕ,
  Result, ok, arith, inl, inr, Bool-cases, append_assoc,
}
use realtime_finance_bot.Scripts.Topics.{
  TopicSpec, NewTopic, has_topic, wanted, topic_specs, create, after_list, create_missing,
}
use realtime_finance_bot.Python.Values.{Error}

unfoldable pub names : List TopicSpec → List Str
names [] = []
names (s ∷ specs) = s.name ∷ names specs

-- A name that a list has is in every list that starts with that list.
has_topic-append :
    (name : Str) (es ms : List Str) → has_topic name es ≡ true → has_topic name (es ++ ms) ≡ true
unfolding has_topic
has_topic-append name [] ms h = ground (arith)
has_topic-append name (e ∷ es) ms h = ground (arith, has_topic-append name es ms)

-- A name in the middle of a list is in it.
has_topic-middle :
    (es : List Str) (name : Str) (ms : List Str) → has_topic name (es ++ (name ∷ ms)) ≡ true
unfolding has_topic
has_topic-middle [] name ms = ground (arith, str_eq_refl name)
has_topic-middle (e ∷ es) name ms = ground (arith, has_topic-middle es name ms)

wanted_old :
    (es : List Str) (s : TopicSpec) (specs : List TopicSpec)
    → has_topic s.name es ≡ true
    → wanted es (s ∷ specs) ≡ wanted es specs
unfolding wanted
wanted_old es s specs h = rw h refl

wanted_new :
    (es : List Str) (s : TopicSpec) (specs : List TopicSpec)
    → has_topic s.name es ≡ false
    → wanted es (s ∷ specs) ≡ s ∷ wanted es specs
unfolding wanted
wanted_new es s specs h = rw h refl

wanted_none : (es : List Str) → wanted es [] ≡ []
unfolding wanted
wanted_none es = refl

-- Once the topics that were missing are there, after those of before and any others, none is missing.
wanted-created :
    (es ms : List Str) (specs : List TopicSpec)
    → wanted (es ++ (ms ++ names (wanted es specs))) specs ≡ []
unfolding names
wanted-created es ms [] = wanted_none (es ++ (ms ++ names (wanted es [])))
wanted-created es ms (s ∷ specs) = elim (Bool-cases (has_topic s.name es)) [
  | inl b ↦
      ap (λ w. wanted (es ++ (ms ++ names w)) (s ∷ specs)) (wanted_old es s specs b)
      ∙ (wanted_old (es ++ (ms ++ names (wanted es specs))) s specs
            (has_topic-append s.name es (ms ++ names (wanted es specs)) b)
          ∙ wanted-created es ms specs)
  | inr b ↦
      let more = wanted es specs in
      let known = es ++ (ms ++ (s.name ∷ names more)) in
      ap (λ w. wanted (es ++ (ms ++ names w)) (s ∷ specs)) (wanted_new es s specs b)
      ∙ (wanted_old known s specs (
            ap (has_topic s.name) (sym (append_assoc es ms (s.name ∷ names more)))
            ∙ has_topic-middle (es ++ ms) s.name (names more))
          ∙ (ap (λ l. wanted (es ++ l) specs) (sym (append_assoc ms (s.name ∷ []) (names more)))
              ∙ wanted-created es (ms ++ (s.name ∷ [])) specs))
]

-- A run of the script that made every missing topic leaves none for the next run, which ends with 0.
pub create-again :
    {W : Type 0} (list_topics : W → Result Error (List Str) × W)
    (create_topics : List NewTopic → W → Result Error (Dict Str Bool) × W) (replication_factor : ℕ)
    (w : W) (before : List Str)
    → list_topics w ≡ (ok (before ++ names (wanted before topic_specs)), w)
    → create list_topics create_topics replication_factor w ≡ (ok 0, w)
unfolding create after_list create_missing
create-again list_topics create_topics replication_factor w before h =
    rw h (rw (wanted-created before [] topic_specs) refl)
