-- ===== src/Tests/Libraries.antt =====
-- Concrete libraries for the tests: a JSON library for the texts of a table, and a store of the
-- framework that keeps its values in a list and may be full.
use mathlib.Core.List.{append_assoc, append-nil}
use iov_vehicle_cgw_fota.Prelude.{
  ◌≡◌, inl, inr, refl, ap, ◌∙◌, ◌<◌, ℕ, String, Bool, true, false, List, [], ◌∷◌, ◌++◌, Option,
  none, some, is_some, Bool-cases, ◌⊎◌, get_elem?, ltb, ◌==◌, str_eq, position, position_sound,
  arith, eq_iff, if◌then◌else◌,
}
use iov_vehicle_cgw_fota.Prelude.Int.{ℤ, pos, negsuc}
use iov_vehicle_cgw_fota.Prelude.Result.{
  Result, ok, thrown, store_exception, json_exception, of_option, OnReturn,
}
use iov_vehicle_cgw_fota.Store.FrameworkStore.{FrameworkStore}
use iov_vehicle_cgw_fota.Store.Serializer.Json.{JsonLib, lookup, without}

-- A list and an object are chains that end in `nil` and `empty`.
pub data Tree : Type 0 where
  text : String → Tree
  natural : ℕ → Tree
  integer : ℤ → Tree
  truth : Bool → Tree
  nil empty : Tree
  cons : Tree → Tree → Tree
  field : String → Tree → Tree → Tree

abbrev pub chain : List Tree → Tree
chain [] = nil
chain (x ∷ xs) = cons x (chain xs)

abbrev pub items : Tree → List Tree
items (cons x xs) = x ∷ items xs
items _ = []

abbrev pub fields_of : Tree → List (String × Tree)
fields_of (field k v rest) = (k, v) ∷ fields_of rest
fields_of _ = []

abbrev pub object_of : List (String × Tree) → Tree
object_of [] = empty
object_of ((k, v) ∷ fs) = field k v (object_of fs)

pub items-chain : (xs : List Tree) → items (chain xs) ≡ xs
items-chain [] = refl
items-chain (x ∷ xs) = ap (λ l. x ∷ l) (items-chain xs)

pub fields_of-object_of : (fs : List (String × Tree)) → fields_of (object_of fs) ≡ fs
fields_of-object_of [] = refl
fields_of-object_of ((k, v) ∷ fs) = ap (λ l. (k, v) ∷ l) (fields_of-object_of fs)

-- The texts that can be written.
abbrev pub table : List String
table =
    "" ∷ "schemaVersion" ∷ "highestAllocated" ∷ "updatedAt" ∷ "requestId" ∷ "reportId"
    ∷ "snapshotSeq" ∷ "reason" ∷ "phase" ∷ "attempt" ∷ "nextRetryAt" ∷ "lastErrorCode"
    ∷ "idempotencyKey" ∷ "fingerprints" ∷ "algorithm" ∷ "canonicalization" ∷ "versionFingerprintHex"
    ∷ "snapshotFingerprintHex" ∷ "dedupeKeyHex" ∷ "completedAt" ∷ "registryVersion"
    ∷ "overallResult" ∷ "snapshot" ∷ "vin" ∷ "vin_source" ∷ "baseline_id" ∷ "baseline_source"
    ∷ "registry_version" ∷ "collected_at" ∷ "overall_result" ∷ "snapshot_seq" ∷ "ecu_list"
    ∷ "ecu_id" ∷ "source" ∷ "status" ∷ "part_number" ∷ "sw_version" ∷ "hw_version" ∷ "error_code"
    ∷ "entries" ∷ "maxEntries" ∷ "ttlMs" ∷ "expiresAt" ∷ "UDS_0x22" ∷ "OK" ∷ "PROVISIONED"
    ∷ "FACTORY" ∷ "ALL_OK" ∷ "Accepted" ∷ "CompletedPendingCleanup" ∷ "SubmitUnknown"
    ∷ "CloudRequest" ∷ "SubmitPrepared" ∷ "r1" ∷ "q1" ∷ "k1" ∷ "VIN1" ∷ "BCM" ∷ "1.0"
    ∷ "vehicleTaskId" ∷ "taskRevision" ∷ "targetBaselineCode" ∷ "vehicleTaskState" ∷ "frozenAtMs"
    ∷ "taskSnapshotPbHex" ∷ "localDispositionResult" ∷ "superseded" ∷ "executionId" ∷ "attemptNo"
    ∷ "permitId" ∷ "permitToken" ∷ "controlRevision" ∷ "validUntilMs" ∷ "executionState"
    ∷ "installPlanVersion" ∷ "checkpointPbHex" ∷ "offlinePolicyPbHex" ∷ "timeoutPolicyPbHex"
    ∷ "nextSequenceNo" ∷ "acceptedSequenceNo" ∷ "sequenceNo" ∷ "eventId" ∷ "eventDigestHex"
    ∷ "stage" ∷ "eventStatus" ∷ "progress" ∷ "occurredAtMs" ∷ "payloadSummary" ∷ "sendStatus"
    ∷ "eventPbHex" ∷ "controlId" ∷ "action" ∷ "scope" ∷ "applyMode" ∷ "issuedAtMs" ∷ "expiresAtMs"
    ∷ "ackStatus" ∷ "ackSequenceNo" ∷ "appliedAtMs" ∷ "EXECUTING" ∷ "INSTALL_STARTED" ∷ "permit"
    ∷ "VT-1" ∷ "0" ∷ "54" ∷ "4f" ∷ "44" ∷ []

abbrev pub both : {A B C : Type 0} → (A → B → C) → Option A → Option B → Option C
both f (some a) (some b) = some (f a b)
both f _ _ = none

abbrev pub named : ℕ → Option ℕ → Option (List ℕ)
named op none = none
named op (some i) = some (op ∷ i ∷ [])

-- A tree as instructions for a stack, each of two numbers.
abbrev pub post : Tree → Option (List ℕ)
post (text s) = named 0 (position s 0 table)
post (natural n) = some (1 ∷ n ∷ [])
post (integer (pos n)) = some (2 ∷ n ∷ [])
post (integer (negsuc n)) = some (3 ∷ n ∷ [])
post (truth false) = some (8 ∷ 0 ∷ [])
post (truth true) = some (8 ∷ 1 ∷ [])
post nil = some (4 ∷ 0 ∷ [])
post empty = some (5 ∷ 0 ∷ [])
post (cons x xs) = both (λ a b. a ++ b ++ (6 ∷ 0 ∷ [])) (post xs) (post x)
post (field k v rest) =
    both (λ a b. a ++ b) (both (λ a b. a ++ b) (post rest) (post v)) (named 7 (position k 0 table))

abbrev pub popped : ℕ → ℕ → List Tree → List Tree
popped op i (x ∷ y ∷ st) =
    if op == 6
    then cons x y ∷ st
    else elim (get_elem? table i) [ none ↦ st | some k ↦ field k x y ∷ st ]
popped op i st = st

abbrev pub perform : ℕ → ℕ → List Tree → List Tree
perform op i st =
    if op == 0
    then elim (get_elem? table i) [ none ↦ st | some s ↦ text s ∷ st ]
    else if op == 1
    then natural i ∷ st
    else if op == 2
    then integer (pos i) ∷ st
    else if op == 3
    then integer (negsuc i) ∷ st
    else if op == 4
    then nil ∷ st
    else if op == 5
    then empty ∷ st
    else if op == 8
    then truth (i == 1) ∷ st
    else popped op i st

abbrev pub run : List ℕ → List Tree → List Tree
run (op ∷ i ∷ rest) st = run rest (perform op i st)
run _ st = st

both-some :
    {A B C : Type 0} (f : A → B → C) (x : Option A) (y : Option B) (c : C)
    → both f x y ≡ some c
    → (a : A) × (b : B) × (x ≡ some a) × (y ≡ some b) × (c ≡ f a b)
both-some f (some a) (some b) c h = (a, b, refl, refl, cc)
both-some f none y c h = absurd (cc)
both-some f (some a) none c h = absurd (cc)

named-some :
    (op : ℕ) (s : String) (t : List ℕ)
    → named op (position s 0 table) ≡ some t
    → (i : ℕ) × (t ≡ op ∷ i ∷ []) × (get_elem? table i ≡ some s)
named-some op s t h = go (position s 0 table) refl h
  where
    go :
        (p : Option ℕ)
        → position s 0 table ≡ p
        → named op p ≡ some t
        → (i : ℕ) × (t ≡ op ∷ i ∷ []) × (get_elem? table i ≡ some s)
    go none e q = absurd (cc)
    go (some i) e q =
        let (j, same, at) = position_sound s 0 table i e in
        let eq : i ≡ j = omega arith in (i, cc, rw eq at)

-- What was written for a tree puts it on the stack.
run-post :
    (j : Tree) (t rest : List ℕ) (st : List Tree)
    → post j ≡ some t
    → run (t ++ rest) st ≡ run rest (j ∷ st)
run-post (text s) t rest st h = let (i, e, at) = named-some 0 s t h in rw (e, at) refl
run-post (natural n) t rest st h = ground (arith, h)
run-post (integer (pos n)) t rest st h = ground (arith, h)
run-post (integer (negsuc n)) t rest st h = ground (arith, h)
run-post (truth false) t rest st h = ground (arith, h)
run-post (truth true) t rest st h = ground (arith, h)
run-post nil t rest st h = ground (arith, h)
run-post empty t rest st h = ground (arith, h)
run-post (cons x xs) t rest st h =
    let (a, b, ha, hb, e) = both-some (λ a b. a ++ b ++ (6 ∷ 0 ∷ [])) (post xs) (post x) t h in
    let last : List ℕ = 6 ∷ 0 ∷ [] in
    rw (e, append_assoc (a ++ b) last rest, append_assoc a b (last ++ rest))
      (run-post xs a (b ++ (last ++ rest)) st ha ∙ run-post x b (last ++ rest) (xs ∷ st) hb)
run-post (field k v more) t rest st h =
    let (ab, c, hab, hc, e) =
      both-some (λ a b. a ++ b) (both (λ a b. a ++ b) (post more) (post v))
        (named 7 (position k 0 table)) t h in
    let (a, b, ha, hb, e') = both-some (λ a b. a ++ b) (post more) (post v) ab hab in
    let (i, e'', at) = named-some 7 k c hc in
    rw (e, e', append_assoc (a ++ b) c rest, append_assoc a b (c ++ rest))
      (run-post more a (b ++ (c ++ rest)) st ha
        ∙ run-post v b (c ++ rest) (more ∷ st) hb
        ∙ rw (e'', at) refl)

abbrev pub written : Option (List ℕ) → Result (List ℕ)
written = of_option (json_exception "type_error")

abbrev pub parsed : List Tree → Result Tree
parsed (j ∷ []) = ok j
parsed _ = thrown (json_exception "parse_error")

pub parsed-written : (j : Tree) (t : List ℕ) → written (post j) ≡ ok t → parsed (run t []) ≡ ok j
parsed-written j t h = go (post j) refl h
  where
    go :
        (o : Option (List ℕ))
        → post j ≡ o
        → of_option (json_exception "type_error") o ≡ ok t
        → parsed (run t []) ≡ ok j
    go none e q = absurd (cc)
    go (some t') e q =
        let same : t' ≡ t = cc in
        let all : run (t ++ []) [] ≡ j ∷ [] = run-post j t [] [] (rw same at e) in
        rw (rw (append-nil t) at all) refl

abbrev pub missing : {A : Type 0} → Option A → Result A
missing = of_option (json_exception "out_of_range")

abbrev pub below : ℕ → Tree → Result ℕ
below bound (natural n) = if ltb n bound then ok n else thrown (json_exception "range")
below bound _ = thrown (json_exception "type_error")

abbrev pub is_chain : Tree → Bool
is_chain nil = true
is_chain (cons _ _) = true
is_chain _ = false

abbrev pub text_in : Tree → Result String
text_in (text s) = ok s
text_in _ = thrown (json_exception "type_error")

abbrev pub integer_in : Tree → Result ℤ
integer_in (integer z) = ok z
integer_in _ = thrown (json_exception "type_error")

abbrev pub truth_in : Tree → Result Bool
truth_in (truth b) = ok b
truth_in _ = thrown (json_exception "type_error")

pub below-range : (bound : ℕ) (j : Tree) (n : ℕ) → below bound j ≡ ok n → n < bound
below-range bound (natural m) n h = ground (arith, h)
below-range bound (text s) n h = absurd (cc)
below-range bound (integer z) n h = absurd (cc)
below-range bound (truth b) n h = absurd (cc)
below-range bound nil n h = absurd (cc)
below-range bound empty n h = absurd (cc)
below-range bound (cons x y) n h = absurd (cc)
below-range bound (field k x y) n h = absurd (cc)

pub below-natural : (bound n : ℕ) → n < bound → below bound (natural n) ≡ ok n
below-natural bound n h = ground arith

abbrev pub json_lib : JsonLib
json_lib = record {
  Json = Tree;
  string = λ s. text s;
  unsigned = λ n. natural n;
  signed = λ z. integer z;
  boolean = λ b. truth b;
  array = chain;
  object = object_of;
  member = λ j k. missing (lookup k (fields_of j));
  contains = λ j k. is_some (lookup k (fields_of j));
  find_value = λ j k. ok (lookup k (fields_of j));
  set_member = λ j k v. ok (object_of ((k, v) ∷ fields_of j));
  erase = λ j k. ok (object_of (without k (fields_of j)));
  is_array = is_chain;
  push_back = λ j x. ok (chain (items j ++ x ∷ []));
  elements = items;
  get_string = text_in;
  get_u32 = below 4294967296;
  get_u64 = below 18446744073709551616;
  get_i64 = integer_in;
  get_bool = truth_in;
  parse = λ t. parsed (run t []);
  dump = λ j. written (post j);
  out_of_range = λ k. json_exception "out_of_range";
  member-object = λ fs k. rw (fields_of-object_of fs) refl;
  contains-object = λ fs k. rw (fields_of-object_of fs) refl;
  find_value-object = λ fs k. rw (fields_of-object_of fs) refl;
  set_member-object = λ fs k v. rw (fields_of-object_of fs) refl;
  erase-object = λ fs k. rw (fields_of-object_of fs) refl;
  push_back-array = λ xs x. rw (items-chain xs) refl;
  elements-array = items-chain;
  get_string-string = λ s. refl;
  get_u32-unsigned = below-natural 4294967296;
  get_u64-unsigned = below-natural 18446744073709551616;
  get_u64_range = below-range 18446744073709551616;
  get_i64-signed = λ z. refl;
  get_bool-boolean = λ b. refl;
  parse-dump = parsed-written;
}

-- The files of a device, and whether there is no room to write.
pub record Device : Type 0 where
  pub files : List (String × List ℕ)
  pub full : Bool

pub lookup-without : (k : String) (fs : List (String × List ℕ)) → lookup k (without k fs) ≡ none
lookup-without k [] = refl
lookup-without k (f ∷ fs) = ground (arith, lookup-without k fs)

pub lookup-without_other :
    (k k' : String) (fs : List (String × List ℕ))
    → str_eq k' k ≡ false
    → lookup k' (without k fs) ≡ lookup k' fs
lookup-without_other k k' [] h = refl
lookup-without_other k k' (f ∷ fs) h =
    ground (arith, lookup-without_other k k' fs, eq_iff k f.0, eq_iff k' f.0, eq_iff k' k)

abbrev pub saving : String → List ℕ → Device → Result (Unit {0}) × Device
saving k v d =
    if d.full
    then (thrown (store_exception "CGW-FW-0102"), d)
    else (ok tt, record d { files = (k, v) ∷ d.files })

pub load_is :
    (o : Option (List ℕ)) → OnReturn (λ v. o ≡ some v) (of_option (store_exception "CGW-FW-0102") o)
load_is none = tt
load_is (some v) = refl

pub stored_or_not :
    (k : String) (v : List ℕ) (d : Device)
    → (lookup k (saving k v d).1.files ≡ lookup k d.files)
      ⊎ (lookup k (saving k v d).1.files ≡ some v)
stored_or_not k v d = elim (Bool-cases d.full) [
  | inl full ↦ inl (rw full refl)
  | inr room ↦ inr (ground (arith, eq_iff k k))
]

pub stored :
    (k : String) (v : List ℕ) (d : Device)
    → (saving k v d).0 ≡ ok tt
    → lookup k (saving k v d).1.files ≡ some v
stored k v d h = ground (arith, eq_iff k k)

pub others_stay :
    (k : String) (v : List ℕ) (k' : String) (d : Device)
    → str_eq k' k ≡ false
    → lookup k' (saving k v d).1.files ≡ lookup k' d.files
others_stay k v k' d h = ground arith

abbrev pub device_store : FrameworkStore
device_store = record {
  World = Device;
  contents = λ d k. lookup k d.files;
  has = λ k d. (ok (is_some (lookup k d.files)), d);
  load = λ k d. (of_option (store_exception "CGW-FW-0102") (lookup k d.files), d);
  save = saving;
  remove = λ k d. (ok tt, record d { files = without k d.files });
  now_ms = λ d. (pos 1000, d);
  has_answer = λ k d. refl;
  load_answer = λ k d. load_is (lookup k d.files);
  save_durable = stored;
  save_atomic = λ k v d. stored_or_not k v d;
  remove_effect = λ k d h. lookup-without k d.files;
  contents-has = λ k k' d. refl;
  contents-load = λ k k' d. refl;
  contents-now_ms = λ k' d. refl;
  contents-save = others_stay;
  contents-remove = λ k k' d h. lookup-without_other k k' d.files h;
}
