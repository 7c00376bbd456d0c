-- ===== src/Resolvers/Forwarding/Sent.antt =====
-- What becomes of a stored response when it is sent.
use hydra_dns.Base.{
  ℕ, ◌/◌, ◌%◌, ◌≡◌, refl, sym, ap, ◌∙◌, arith, [], ◌∷◌, length, take, ◌==◌, Bool-cases,
  Succeeds-value, ok, Bytes,
}
use hydra_dns.Resolvers.Answer.{
  Answer, answered, failed, Origin, filtered_blocked, custom_dns, upstream_cache, upstream_inflight,
  upstream,
}
use hydra_dns.Resolvers.Message.{QuestionKey, patch_transaction_id}
use hydra_dns.Resolvers.Ageing.{adjust_ttls}
use hydra_dns.Resolvers.Ageing.Kept
use hydra_dns.Resolvers.Ageing.Kept.{adjust_ttls-Succeeds}
use hydra_dns.Resolvers.Forwarding.{Network}
use hydra_dns.Resolvers.Forwarding.Query.{with_txid, shared_answer, cached_answer}
use hydra_dns.Resolvers.Forwarding.Sound.{AnswersQuestion, GivenBy, StoredFor, IsError, IsStored}

-- How a response is sent with this id: from the cache with its TTLs aged, otherwise as it is.
abbrev pub SentAs : Bytes → ℕ → Bytes → Origin → Type 0
SentAs resp txid out upstream_cache =
    (age : ℕ) × (aged : Bytes) × (adjust_ttls (patch_transaction_id resp 0) age ≡ ok aged)
    × (out ≡ patch_transaction_id aged txid)
SentAs resp txid out origin = out ≡ patch_transaction_id resp txid

-- A reply with this id: some upstream's response to the question, which keeps its length and but for
-- the id its header. Of errors, none is a crash.
abbrev pub Replies : {W : Type 0} → Network W → QuestionKey → ℕ → Answer → Type 0
Replies net k txid (answered out o) =
    (resp : Bytes) × GivenBy net resp
    × AnswersQuestion k resp
    × SentAs resp txid out o
    × (length out ≡ length resp)
    × (take 12 out ≡ patch_transaction_id (take 12 resp) txid)
Replies net k txid (failed why) = IsError why

length-patch : (x : Bytes) (t : ℕ) → length (patch_transaction_id x t) ≡ length x
unfolding patch_transaction_id
length-patch [] t = refl
length-patch (b0 ∷ []) t = refl
length-patch (b0 ∷ b1 ∷ rest) t =
    ground (arith, Bool-cases (b0 == t / 256), Bool-cases (b1 == t % 256))

patched :
    (b0 b1 : ℕ) (rest : Bytes) (t : ℕ)
    → patch_transaction_id (b0 ∷ b1 ∷ rest) t ≡ t / 256 ∷ t % 256 ∷ rest
unfolding patch_transaction_id
patched b0 b1 rest t = ground (arith, Bool-cases (b0 == t / 256), Bool-cases (b1 == t % 256))

take-patch :
    (x : Bytes) (t : ℕ) → take 12 (patch_transaction_id x t) ≡ patch_transaction_id (take 12 x) t
unfolding patch_transaction_id
take-patch [] t = refl
take-patch (b0 ∷ []) t = refl
take-patch (b0 ∷ b1 ∷ rest) t = rw (patched b0 b1 rest t, patched b0 b1 (take 10 rest) t) refl

patch-patch :
    (x : Bytes) (s t : ℕ)
    → patch_transaction_id (patch_transaction_id x s) t ≡ patch_transaction_id x t
unfolding patch_transaction_id
patch-patch [] s t = refl
patch-patch (b0 ∷ []) s t = refl
patch-patch (b0 ∷ b1 ∷ rest) s t =
    rw (patched b0 b1 rest s, patched (s / 256) (s % 256) rest t, patched b0 b1 rest t) refl

adjust_ttls_new : (v : Bytes) → adjust_ttls v 0 ≡ ok v
unfolding adjust_ttls
adjust_ttls_new v = ground arith

-- What the front of a stored response and its length are once it is sent.
sent_front :
    (resp v out : Bytes) (txid : ℕ)
    → v ≡ patch_transaction_id resp 0
    → Kept.Keeps v out
    → (length (patch_transaction_id out txid) ≡ length resp)
      × (take 12 (patch_transaction_id out txid) ≡ patch_transaction_id (take 12 resp) txid)
sent_front resp v out txid e (long, head) = (
  length-patch out txid ∙ long ∙ ap length e ∙ length-patch resp 0,
  take-patch out txid
      ∙ ap (λ x. patch_transaction_id x txid) (head ∙ ap (take 12) e ∙ take-patch resp 0)
      ∙ patch-patch (take 12 resp) 0 txid,
)

stored-SentAs :
    (resp v : Bytes) (txid : ℕ) (o : Origin)
    → v ≡ patch_transaction_id resp 0
    → SentAs resp txid (patch_transaction_id v txid) o
stored-SentAs resp v txid upstream_cache e =
    (0, v, ap (λ x. adjust_ttls x 0) (sym e) ∙ adjust_ttls_new v, refl)
stored-SentAs resp v txid filtered_blocked e =
    ap (λ x. patch_transaction_id x txid) e ∙ patch-patch resp 0 txid
stored-SentAs resp v txid custom_dns e =
    ap (λ x. patch_transaction_id x txid) e ∙ patch-patch resp 0 txid
stored-SentAs resp v txid upstream_inflight e =
    ap (λ x. patch_transaction_id x txid) e ∙ patch-patch resp 0 txid
stored-SentAs resp v txid upstream e =
    ap (λ x. patch_transaction_id x txid) e ∙ patch-patch resp 0 txid

-- A stored response that is sent as it is, or from the cache at an age.
module _ {W : Type 0} (net : Network W) (k : QuestionKey) (txid : ℕ) (v : Bytes)
    (h : StoredFor net k v) where
  stored-Replies : (o : Origin) → Replies net k txid (answered (patch_transaction_id v txid) o)
  stored-Replies o =
      let (resp, e, given, answers) = h in
      let front = sent_front resp v v txid e (refl, refl) in
      (resp, given, answers, stored-SentAs resp v txid o e, front.0, front.1)

  aged-Replies :
      (age : ℕ) (out : Bytes)
      → adjust_ttls v age ≡ ok out
      → Kept.Keeps v out
      → Replies net k txid (answered (patch_transaction_id out txid) upstream_cache)
  aged-Replies age out adjusted kept =
      let (resp, e, given, answers) = h in
      let front = sent_front resp v out txid e kept in
      let from_stored : adjust_ttls (patch_transaction_id resp 0) age ≡ ok out =
        ap (λ x. adjust_ttls x age) (sym e) ∙ adjusted in
      (resp, given, answers, (age, out, from_stored, refl), front.0, front.1)

pub with_txid-Replies :
    {W : Type 0} (net : Network W) (k : QuestionKey) (txid : ℕ) (a : Answer)
    → IsStored net k a
    → Replies net k txid (with_txid txid a)
with_txid-Replies net k txid (answered v o) h = stored-Replies net k txid v h o
with_txid-Replies net k txid (failed why) h = h

pub shared_answer-Replies :
    {W : Type 0} (net : Network W) (k : QuestionKey) (txid : ℕ) (a : Answer)
    → IsStored net k a
    → Replies net k txid (shared_answer txid a)
shared_answer-Replies net k txid (answered v o) h = stored-Replies net k txid v h upstream_inflight
shared_answer-Replies net k txid (failed why) h = h

pub cached_answer-Replies :
    {W : Type 0} (net : Network W) (k : QuestionKey) (txid : ℕ) (v : Bytes) (age : ℕ)
    → StoredFor net k v
    → Replies net k txid (cached_answer txid (adjust_ttls v age))
cached_answer-Replies net k txid v age h =
    let (out, e, kept) =
      Succeeds-value (Kept.Keeps v) (adjust_ttls v age) (adjust_ttls-Succeeds v age) in
    rw e (aged-Replies net k txid v h age out e kept)
