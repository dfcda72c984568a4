-- ===== src/Cmd/Kinds.antt =====
-- The first word decides the kind, and each kind but `unknown` has one spelling.
use multithreaded_chat_appli.Base.{
  Bool-cases, Option, Text, ap, eq_of_some, if◌then◌else◌, inl, inr, none, refl, same, same_iff,
  some, sym, text, ◌↔◌, ◌∙◌, ◌≡◌, ◌≢◌, ◌⊎◌,
}
use multithreaded_chat_appli.Cmd.{
  Kind, conn, conn_success, conn_failed, say, sayto, mute, unmute, rename, disconn,
  disconn_response, kick, ping, retping, error, unknown, kind_of,
}

-- The wire spelling of a kind; `unknown` has none.
unfoldable pub keyword : Kind → Option Text
keyword conn = some (text "conn")
keyword conn_success = some (text "connsuccess")
keyword conn_failed = some (text "connfailed")
keyword say = some (text "say")
keyword sayto = some (text "sayto")
keyword mute = some (text "mute")
keyword unmute = some (text "unmute")
keyword rename = some (text "rename")
keyword disconn = some (text "disconn")
keyword disconn_response = some (text "disconnresponse")
keyword kick = some (text "kick")
keyword ping = some (text "ping")
keyword retping = some (text "retping")
keyword error = some (text "error")
keyword unknown = none

keyword-kind_of : (k : Kind) (word : Text) → keyword k ≡ some word → kind_of word ≡ k
unfolding keyword kind_of same
keyword-kind_of conn word e = rw (← eq_of_some _ _ e)
keyword-kind_of unknown word e = cc
keyword-kind_of k word e = rw (← eq_of_some _ _ e)

abbrev Spells : Text → Kind → Type 0
Spells word k = (k ≡ unknown) ⊎ (keyword k ≡ some word)

-- One test of the chain.
by_test :
    (word s : Text) (k rest : Kind)
    → keyword k ≡ some s
    → Spells word rest
    → Spells word (if same word s then k else rest)
by_test word s k rest spelled h = elim (Bool-cases (same word s)) [
  | inl e ↦ rw e (inr (spelled ∙ ap some (sym ((same_iff word s).0 e))))
  | inr e ↦ rw e h
]

kind_of-Spells : (word : Text) → Spells word (kind_of word)
unfolding kind_of keyword
kind_of-Spells word = by_test word (text "conn") conn _ refl (
    by_test word (text "connsuccess") conn_success _ refl (
      by_test word (text "connfailed") conn_failed _ refl (
        by_test word (text "say") say _ refl (
          by_test word (text "sayto") sayto _ refl (
            by_test word (text "mute") mute _ refl (
              by_test word (text "unmute") unmute _ refl (
                by_test word (text "rename") rename _ refl (
                  by_test word (text "disconn") disconn _ refl (
                    by_test word (text "disconnresponse") disconn_response _ refl (
                      by_test word (text "kick") kick _ refl (
                        by_test word (text "ping") ping _ refl (
                          by_test word (text "retping") retping _ refl
                            (by_test word (text "error") error _ refl (inl refl))))))))))))))

-- A word is parsed as a kind other than `unknown` exactly when it is the spelling of that kind.
pub kind_of_iff :
    (word : Text) (k : Kind) → k ≢ unknown → (kind_of word ≡ k) ↔ (keyword k ≡ some word)
kind_of_iff word k known = (
  λ e. elim (kind_of-Spells word) [
    | inl u ↦ absurd (known (sym e ∙ u))
    | inr s ↦ ap keyword (sym e) ∙ s
  ],
  keyword-kind_of k word,
)
