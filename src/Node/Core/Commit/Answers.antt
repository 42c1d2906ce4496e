-- ===== src/Node/Core/Commit/Answers.antt =====
-- The promises of join and leave requests are answered once, when the receipt is in a block.
use babble.Base.{
  ◌≡◌, refl, sym, ap, ◌∙◌, subst, ℤ, pos, List, [], ◌∷◌, ◌++◌, select, GoMap, lookup, delete,
  lookup-delete, lookup-All, Option, none, some, is_some, Option-cases, ite, if_pos, if_neg,
  if◌then◌else◌, inl, inr, Bool, true, false, Bool-cases, arith, All,
}
use mathlib.Core.List.{append-nil}
use babble.Common.Platform.{Platform, Bytes}
use babble.Peers.Peer.{Peer}
use babble.Peers.PeerSet.{PeerSet}
use babble.Hashgraph.Event.{InternalTransaction, InternalTransactionReceipt}
use babble.Hashgraph.Crypto.{Crypto}
use babble.Node.Core.{Core, bytes_key, hash_string, JoinPromiseResponse}
use babble.Node.Core.Commit.{respond, respond_to, answer_of}

abbrev Answer : Type 0
Answer = InternalTransaction × JoinPromiseResponse

-- what a receipt says to the node that asked, in a network with some peers
abbrev pub verdict : ℤ → List Peer → InternalTransactionReceipt → JoinPromiseResponse
verdict effective peers r = record {
  accepted = r.accepted;
  accepted_round = if r.accepted then effective else pos 0;
  peers = if r.accepted then peers else [];
}

-- the answer to a promise, if there is one and there is a receipt
abbrev pub reply :
    ℤ
    → List Peer
    → Option InternalTransaction
    → Option InternalTransactionReceipt
    → List (InternalTransaction × JoinPromiseResponse)
reply effective peers (some itx) (some r) = (itx, verdict effective peers r) ∷ []
reply effective peers _ _ = []

select-append :
    {A : Type 0} (f : A → Bool) (xs ys : List A) → select f (xs ++ ys) ≡ select f xs ++ select f ys
select-append f [] ys = refl
select-append f (x ∷ xs) ys = ground (arith, select-append f xs ys)

delete-All :
    {V : Type 0} (P : Bytes × V → Type 0) (m : GoMap Bytes V) (k : Bytes)
    → All P m
    → All P (delete m k)
unfolding delete
delete-All P [] k h = tt
delete-All P ((j, v) ∷ m) k h = elim (bytes_key.dec j k) [
  | yes e ↦ rw (if_pos _ e) (delete-All P m k h.1)
  | no n ↦ rw (if_neg _ n) (h.0, delete-All P m k h.1)
]

none_both : {A : Type 0} (b : Bool) → ◌≡◌ {A = Option A} (if b then none else none) none
none_both true = refl
none_both false = refl

reply-none :
    (effective : ℤ) (peers : List Peer) (o : Option InternalTransactionReceipt)
    → reply effective peers none o ≡ []
reply-none effective peers none = refl
reply-none effective peers (some r) = refl

module _ ⦃platform : Platform⦄ ⦃crypto : Crypto⦄ where
  -- every promise is under the hash of its transaction, as addInternalTransaction puts it
  abbrev pub IsKeyed : GoMap Bytes InternalTransaction → Type 0
  IsKeyed = All (λ e. hash_string e.1 ≡ e.0)

  -- the first receipt of the transaction with a hash
  abbrev pub first_receipt :
      Bytes → List InternalTransactionReceipt → Option InternalTransactionReceipt
  first_receipt k [] = none
  first_receipt k (r ∷ rs) =
      ite (bytes_key.dec (hash_string r.internal_transaction) k) (some r) (first_receipt k rs)

  -- an answer to the promise with a hash
  abbrev pub answers_to : Bytes → InternalTransaction × JoinPromiseResponse → Bool
  answers_to k a = ite (bytes_key.dec (hash_string a.0) k) true false

  module _ (effective : ℤ) where
    answer_of_lem :
        (r : InternalTransactionReceipt) (c : Core)
        → answer_of effective r.accepted c ≡ verdict effective c.validators.peers r
    answer_of_lem r c = elim (Bool-cases r.accepted) [ inl e ↦ rw e refl | inr e ↦ rw e refl ]

    respond-validators :
        (r : InternalTransactionReceipt) (c : Core)
        → (respond effective r c).validators ≡ c.validators
    respond-validators r c =
        elim (Option-cases (lookup c.promises (hash_string r.internal_transaction))) [
          | inl e ↦ rw (respond, e) refl
          | inr (itx, e) ↦ rw (respond, e) refl
        ]

    respond-IsKeyed :
        (r : InternalTransactionReceipt) (c : Core)
        → IsKeyed c.promises
        → IsKeyed (respond effective r c).promises
    respond-IsKeyed r c w =
        elim (Option-cases (lookup c.promises (hash_string r.internal_transaction))) [
          | inl e ↦ rw (respond, e) w
          | inr (itx, e) ↦
              rw (respond, e)
                (delete-All (λ e. hash_string e.1 ≡ e.0) c.promises
                  (hash_string r.internal_transaction) w)
        ]

    -- one receipt, seen from one promise
    respond-at :
        (r : InternalTransactionReceipt) (c : Core) (k : Bytes)
        → IsKeyed c.promises
        → (select (answers_to k) (respond effective r c).answers
            ≡ select (answers_to k) c.answers
              ++ ite
                  (bytes_key.dec (hash_string r.internal_transaction) k)
                  (reply effective c.validators.peers (lookup c.promises k) (some r))
                  [])
          × (lookup (respond effective r c).promises k
              ≡ ite
                  (bytes_key.dec (hash_string r.internal_transaction) k)
                  none
                  (lookup c.promises k))
    respond-at r c k w =
        let q = hash_string r.internal_transaction in
        elim (Option-cases (lookup c.promises q)) [
          | inl e ↦ elim (bytes_key.dec q k) [
            | yes same ↦
                let missing : lookup c.promises k ≡ none =
                  subst (λ t. lookup c.promises t ≡ none) same e in
                (
                  rw (respond, e, if_pos _ same, missing) (sym (append-nil _)),
                  rw (respond, e, if_pos _ same, missing) refl,
                )
            | no other ↦ (
              rw (respond, e, if_neg _ other) (sym (append-nil _)),
              rw (respond, e, if_neg _ other) refl,
            )
          ]
          | inr (itx, e) ↦
              let keyed = lookup-All (λ j t. hash_string t ≡ j) c.promises q itx w e in
              let split =
                select-append (answers_to k) c.answers
                  ((itx, answer_of effective r.accepted c) ∷ []) in
              elim (bytes_key.dec q k) [
                | yes same ↦
                    let there : lookup c.promises k ≡ some itx =
                      subst (λ t. lookup c.promises t ≡ some itx) same e in
                    (
                      rw
                          (
                            respond,
                            e,
                            split,
                            if_pos _ same,
                            there,
                            if_pos _ (keyed ∙ same),
                            answer_of_lem r c,
                          )
                          refl,
                      rw (respond, e, lookup-delete, if_pos _ same) refl,
                    )
                | no other ↦ (
                  rw (respond, e, split, if_neg _ other, if_neg _ (λ t. other (sym keyed ∙ t)))
                      refl,
                  rw (respond, e, lookup-delete, if_neg _ other) refl,
                )
              ]
        ]

    respond_to-at :
        (rs : List InternalTransactionReceipt) (c : Core) (k : Bytes)
        → IsKeyed c.promises
        → (select (answers_to k) (respond_to effective rs c).answers
            ≡ select (answers_to k) c.answers
              ++ reply effective c.validators.peers (lookup c.promises k) (first_receipt k rs))
          × (lookup (respond_to effective rs c).promises k
              ≡ (if is_some (first_receipt k rs) then none else lookup c.promises k))
    respond_to-at [] c k w = elim (Option-cases (lookup c.promises k)) [
      | inl e ↦ rw e (sym (append-nil _), refl)
      | inr (itx, e) ↦ rw e (sym (append-nil _), refl)
    ]
    respond_to-at (r ∷ rs) c k w =
        let step = respond-at r c k w in
        let rest = respond_to-at rs (respond effective r c) k (respond-IsKeyed r c w) in
        let peers = c.validators.peers in
        let same_peers = ap (λ (v : PeerSet). v.peers) (respond-validators r c) in
        elim (bytes_key.dec (hash_string r.internal_transaction) k) [
          | yes same ↦
              let gone : lookup (respond effective r c).promises k ≡ none =
                rw (if_pos _ same) at step.1 in
              let answered : select (answers_to k) (respond effective r c).answers
                  ≡ select (answers_to k) c.answers
                    ++ reply effective peers (lookup c.promises k) (some r) =
                rw (if_pos _ same) at step.0 in
              let first = rw (gone, reply-none effective, append-nil) at rest.0 in
              let second = rw gone at rest.1 in
              rw (if_pos _ same)
                (first ∙ answered, second ∙ none_both (is_some (first_receipt k rs)))
          | no other ↦
              let stays : lookup (respond effective r c).promises k ≡ lookup c.promises k =
                rw (if_neg _ other) at step.1 in
              let answered : select (answers_to k) (respond effective r c).answers
                  ≡ select (answers_to k) c.answers =
                rw (if_neg _ other, append-nil) at step.0 in
              let first = rw (stays, same_peers, answered) at rest.0 in
              let second = rw stays at rest.1 in rw (if_neg _ other) (first, second)
        ]

    -- When every promise is under the hash of its transaction: after the receipts of a block are gone
    -- through, a promise is pending exactly if it was and none of the receipts is for its hash. The
    -- answers to the promise with a hash are those there were, and one more if it was pending and there
    -- is a receipt: it goes to the transaction of the promise, and says whether the first receipt
    -- accepts it, with the effective round and the peers of the validator-set if so and neither if not.
    pub respond_to-answered :
        (rs : List InternalTransactionReceipt) (c : Core)
        → IsKeyed c.promises
        → (k : Bytes)
        → (select (answers_to k) (respond_to effective rs c).answers
            ≡ select (answers_to k) c.answers
              ++ reply effective c.validators.peers (lookup c.promises k) (first_receipt k rs))
          × (lookup (respond_to effective rs c).promises k
              ≡ (if is_some (first_receipt k rs) then none else lookup c.promises k))
    respond_to-answered rs c w k = respond_to-at rs c k w
