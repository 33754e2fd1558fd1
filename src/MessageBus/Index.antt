-- ===== src/MessageBus/Index.antt =====
-- The two indexes of src/message_bus.cpp agree.
use edge_link.Prelude.{
  ℕ, suc, ◌+◌, ◌≤◌, ◌<◌, ◌≡◌, refl, inl, inr, false, Option, none, some, List, [], ◌∷◌, ◌++◌, arith,
  eqb, if◌then◌else◌, eqb_iff, Bool-cases, u64_mod, inc64, Text, length, is_empty, All,
}
use edge_link.MessageBus.{
  new, Subscription, MessageBus, subscriptions_of, enroll, subscribe, without, drop_from, clear,
}
use edge_link.MessageBus.Views.{subscriptions_of-enroll, subscriptions_of-drop_from}
use edge_link.Prelude.Dict.{
  find, put, erase, IsUnique, find-put, find-erase, put-IsUnique, erase-IsUnique, All-put,
  All-erase,
}
use edge_link.Prelude.Keys.{nat_eq, text_beq, text_beq_iff, text_eq, text_beq_refl}

-- How often an ID stands in a list of subscriptions.
abbrev pub count : {C : Type 0} → ℕ → List (Subscription C) → ℕ
count id [] = 0
count id (s ∷ ss) = if eqb s.id id then suc (count id ss) else count id ss

-- 1 if the reverse index gives the topic, else 0.
abbrev pub registered : Option Text → Text → ℕ
registered none topic = 0
registered (some t) topic = if text_beq t topic then 1 else 0

given_out-weaken :
    (n n' : ℕ) (ts : List (ℕ × Text))
    → n ≤ n'
    → All (λ e. (0 < e.0) × (e.0 < n) × (is_empty e.1 ≡ false)) ts
    → All (λ e. (0 < e.0) × (e.0 < n') × (is_empty e.1 ≡ false)) ts
given_out-weaken n n' [] h a = tt
given_out-weaken n n' ((id, t) ∷ ts) h (x, a) =
    ((x.0, omega arith, x.2), given_out-weaken n n' ts h a)

pub find_next :
    (n k : ℕ) (ts : List (ℕ × Text))
    → All (λ e. (0 < e.0) × (e.0 < n) × (is_empty e.1 ≡ false)) ts
    → n ≤ k
    → find k ts ≡ none
unfolding find
find_next n k [] a h = refl
find_next n k ((id, t) ∷ ts) (x, a) h = ground (arith, find_next n k ts a)

module _ {C : Type 0} where
  pub record IsValid (b : MessageBus C) : Type 0 where
    pub topics_unique : IsUnique b.subscribers
    pub ids_unique : IsUnique b.subscription_topics
    -- An ID stands once in the list of the topic that the reverse index gives, and nowhere else.
    pub indexed :
        (id : ℕ) (topic : Text)
        → count id (subscriptions_of b topic) ≡ registered (find id b.subscription_topics) topic
    pub no_empty_list : All (λ e. is_empty e.1 ≡ false) b.subscribers
    pub given_out :
        All
          (λ e. (0 < e.0) × (e.0 < b.next_subscription_id) × (is_empty e.1 ≡ false))
          b.subscription_topics
    pub next_positive : 0 < b.next_subscription_id

  pub count-append :
      (id : ℕ) (xs ys : List (Subscription C)) → count id (xs ++ ys) ≡ count id xs + count id ys
  count-append id [] ys = omega arith
  count-append id (x ∷ xs) ys = ground (arith, count-append id xs ys)

  pub count-without :
      (id j : ℕ) (xs : List (Subscription C))
      → count j (without id xs) ≡ (if eqb j id then 0 else count j xs)
  unfolding without
  count-without id j [] = ground arith
  count-without id j (x ∷ xs) = ground (arith, count-without id j xs)

  pub length-without :
      (id : ℕ) (xs : List (Subscription C)) → length (without id xs) + count id xs ≡ length xs
  unfolding without
  length-without id [] = refl
  length-without id (x ∷ xs) = ground (arith, length-without id xs)

  pub is_empty-append :
      (xs : List (Subscription C)) (x : Subscription C) → is_empty (xs ++ x ∷ []) ≡ false
  is_empty-append [] x = refl
  is_empty-append (y ∷ xs) x = refl

  pub new-IsValid : IsValid (new {C = C})
  unfolding new subscriptions_of find
  new-IsValid = record {
    topics_unique = tt;
    ids_unique = tt;
    indexed = λ id topic. refl;
    no_empty_list = tt;
    given_out = tt;
    next_positive = omega arith;
  }

  enroll-indexed :
      (b : MessageBus C) (topic : Text) (callback : C) (id : ℕ) (j : Text)
      → IsValid b
      → count id (subscriptions_of (enroll b topic callback) j)
        ≡ registered (find id (put b.next_subscription_id topic b.subscription_topics)) j
  enroll-indexed b topic callback id j v =
      let n = b.next_subscription_id in
      let s : Subscription C = record { id = n; callback = callback } in
      let fresh = find_next n n b.subscription_topics v.given_out (omega arith) in
      ground (
        arith,
        subscriptions_of-enroll b topic callback j,
        count-append id (subscriptions_of b j) (s ∷ []),
        v.indexed id j,
        find-put n id topic b.subscription_topics,
        eqb_iff n id,
      )

  enroll-IsValid :
      (b : MessageBus C) (topic : Text) (callback : C)
      → is_empty topic ≡ false
      → b.next_subscription_id + 1 < u64_mod
      → IsValid b
      → IsValid (enroll b topic callback)
  unfolding enroll
  enroll-IsValid b topic callback h room v =
      let n = b.next_subscription_id in
      let s : Subscription C = record { id = n; callback = callback } in
      let older = given_out-weaken n (inc64 n) b.subscription_topics (omega arith) v.given_out in
      record {
        topics_unique = put-IsUnique topic _ b.subscribers v.topics_unique;
        ids_unique = put-IsUnique n topic b.subscription_topics v.ids_unique;
        indexed = λ id j. enroll-indexed b topic callback id j v;
        no_empty_list =
            All-put (λ e. is_empty e.1 ≡ false) topic _ b.subscribers
              (is_empty-append (subscriptions_of b topic) s) v.no_empty_list;
        given_out =
            All-put (λ e. (0 < e.0) × (e.0 < inc64 n) × (is_empty e.1 ≡ false)) n topic
              b.subscription_topics (v.next_positive, omega arith, h) older;
        next_positive = omega arith;
      }

  -- Where the reverse index gives a topic, the subscription stands in that topic's list.
  pub find-subscribers :
      (b : MessageBus C) (id : ℕ) (topic : Text)
      → IsValid b
      → find id b.subscription_topics ≡ some topic
      → (find topic b.subscribers ≡ some (subscriptions_of b topic))
        × (count id (subscriptions_of b topic) ≡ 1)
  unfolding subscriptions_of
  find-subscribers b id topic v f =
      let one = v.indexed id topic in let same = text_beq_refl topic in ground arith

  drop_from-indexed :
      (b : MessageBus C) (id : ℕ) (topic : Text) (k : ℕ) (j : Text)
      → IsValid b
      → find id b.subscription_topics ≡ some topic
      → count k (subscriptions_of (drop_from b id topic (subscriptions_of b topic)).1 j)
        ≡ registered (find k (erase id b.subscription_topics)) j
  drop_from-indexed b id topic k j v f = ground (
    arith,
    subscriptions_of-drop_from b id topic (subscriptions_of b topic) j,
    count-without id k (subscriptions_of b topic),
    v.indexed k j,
    find-erase id k b.subscription_topics,
    eqb_iff id k,
    text_beq_iff topic j,
  )

  -- What the write back does to a property of the entries or of the keys.
  kept_either {ℓ} :
      (P : List (Text × List (Subscription C)) → Type ℓ) (topic : Text)
      (kept : List (Subscription C)) (d : List (Text × List (Subscription C)))
      → P (erase topic d)
      → (is_empty kept ≡ false → P (put topic kept d))
      → P (if is_empty kept then erase topic d else put topic kept d)
  kept_either P topic [] d e p = e
  kept_either P topic (s ∷ ss) d e p = p refl

  pub drop_from-IsValid :
      (b : MessageBus C) (id : ℕ) (topic : Text)
      → IsValid b
      → find id b.subscription_topics ≡ some topic
      → IsValid (drop_from b id topic (subscriptions_of b topic)).1
  unfolding drop_from
  drop_from-IsValid b id topic v f = record {
    topics_unique =
        kept_either IsUnique topic (without id (subscriptions_of b topic)) b.subscribers
          (erase-IsUnique topic b.subscribers v.topics_unique)
          (λ h. put-IsUnique topic _ b.subscribers v.topics_unique);
    ids_unique = erase-IsUnique id b.subscription_topics v.ids_unique;
    indexed = λ k j. drop_from-indexed b id topic k j v f;
    no_empty_list =
        kept_either (All (λ e. is_empty e.1 ≡ false)) topic (without id (subscriptions_of b topic))
          b.subscribers (All-erase (λ e. is_empty e.1 ≡ false) topic b.subscribers v.no_empty_list)
          (λ h. All-put (λ e. is_empty e.1 ≡ false) topic _ b.subscribers h v.no_empty_list);
    given_out = All-erase _ id b.subscription_topics v.given_out;
    next_positive = v.next_positive;
  }

  pub clear-IsValid : (b : MessageBus C) → IsValid b → IsValid (clear b)
  unfolding clear subscriptions_of find
  clear-IsValid b v = record {
    topics_unique = tt;
    ids_unique = tt;
    indexed = λ id topic. refl;
    no_empty_list = tt;
    given_out = tt;
    next_positive = v.next_positive;
  }

  pub subscribe-IsValid :
      (b : MessageBus C) (topic : Text) (callback : Option C)
      → b.next_subscription_id + 1 < u64_mod
      → IsValid b
      → IsValid (subscribe b topic callback).1
  unfolding subscribe
  subscribe-IsValid b topic none room v = v
  subscribe-IsValid b topic (some callback) room v = elim (Bool-cases (is_empty topic)) [
    | inl e ↦ rw e v
    | inr e ↦ rw e (enroll-IsValid b topic callback e room v)
  ]
