-- ===== src/Tests/Scripts.antt =====
-- Runs of the operator's scripts.
use realtime_finance_bot.Base.{
  Bool, true, false, List, [], ◌∷◌, Str, str, str_eq, Dict, Result, ok, ◌≡◌, refl,
}
use realtime_finance_bot.Scripts.Acls.Verify.{IsReadBack, grant-IsReadBack}
use realtime_finance_bot.Python.Values.{Error}
use realtime_finance_bot.Scripts.Topics.{
  NewTopic, create, after_list, create_missing, wanted, has_topic, after_create, exit_code,
  to_new_topic, count_failed,
}
use realtime_finance_bot.Scripts.Acls.{
  AclBinding, wanted_bindings, grant, after_grants, after_futures, after_describe, failed_grants,
  missing_grants, exit_of,
}

-- A cluster that is the list of its topics, and makes every topic.
abbrev topic_names : List NewTopic → List Str
topic_names [] = []
topic_names (t ∷ topics) = t.topic ∷ topic_names topics

abbrev made : List NewTopic → Dict Str Bool
made [] = []
made (t ∷ topics) = (t.topic, true) ∷ made topics

abbrev existing_but_two : List Str
existing_but_two =
    str "md.trades.v1"
    ∷ str "md.book.top.v1"
    ∷ str "md.book.depth.v1"
    ∷ str "md.bars.v1"
    ∷ str "ops.metrics.v1"
    ∷ str "_dlq.md.trades.v1"
    ∷ str "_dlq.md.book.top.v1"
    ∷ str "_dlq.md.book.depth.v1"
    ∷ str "_dlq.md.bars.v1"
    ∷ []

missing_run :
    create {W = List Str}
      (λ w. (ok existing_but_two, w))
      (λ topics w. (ok (made topics), topic_names topics))
      2
      []
    ≡ (ok 0, str "news.articles.v1" ∷ str "_dlq.news.articles.v1" ∷ [])
unfolding create str_eq after_list create_missing wanted has_topic after_create exit_code
    to_new_topic count_failed
missing_run = refl

failed_run :
    create {W = List Str}
      (λ w. (ok existing_but_two, w))
      (λ topics w. (ok ((str "news.articles.v1", false) ∷ []), w))
      2
      []
    ≡ (ok 1, [])
unfolding create str_eq after_list create_missing wanted has_topic after_create exit_code
    to_new_topic count_failed
failed_run = refl

-- A cluster that takes the grants and lists none of them.
abbrev granted : List AclBinding → List (AclBinding × Bool)
granted [] = []
granted (b ∷ bindings) = (b, true) ∷ granted bindings

unlisted_run :
    grant {E = List Str}
      (λ b existing. false)
      {W = List Str}
      (λ bindings w. (ok (granted bindings), w))
      (λ w. (ok [], w))
      (str "User:*")
      []
    ≡ (ok 1, [])
unfolding grant wanted_bindings after_grants after_futures after_describe failed_grants
    missing_grants exit_of
unlisted_run = refl

-- A cluster that lists the names of its grants.
abbrev grant_names : List AclBinding → List Str
grant_names [] = []
grant_names (b ∷ bindings) = b.name ∷ grant_names bindings

abbrev lists_name : AclBinding → List Str → Bool
lists_name b existing = has_topic b.name existing

abbrev grant_all : List AclBinding → List Str → Result Error (List (AclBinding × Bool)) × List Str
grant_all bindings w = (ok (granted bindings), grant_names bindings)

abbrev list_grants : List Str → Result Error (List Str) × List Str
list_grants w = (ok w, w)

grant-IsReadBack_example :
    IsReadBack lists_name grant_all list_grants
      (wanted_bindings (str "User:*"))
      (list_grants (grant_names (wanted_bindings (str "User:*"))))
      (grant_names (wanted_bindings (str "User:*")))
unfolding grant after_grants after_futures after_describe failed_grants missing_grants exit_of
    wanted_bindings str_eq has_topic
grant-IsReadBack_example =
    grant-IsReadBack lists_name grant_all list_grants (str "User:*") []
      (grant_names (wanted_bindings (str "User:*"))) refl
