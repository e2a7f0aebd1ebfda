-- ===== src/Tests/Objects.antt =====
-- A machine with named objects to run on: the list of its handles, each with its process and the name of
-- its object, and whether the last object that was made existed already.
use wasmtime_mysql.Prelude.{
  ℕ, ◌+◌, ◌≤◌, ◌≡◌, ◌≢◌, inl, inr, refl, ap, ◌∙◌, arith, Bool, true, false, ◌&&◌, ◌||◌, List, [],
  ◌∷◌, Option, none, some, if◌then◌else◌, ◌==◌, ==_iff, pos, Bool-cases, replicate, length,
}
use wasmtime_mysql.Paths.Text.{eq_text, eq_text_refl, eq_text→eq}
use wasmtime_mysql.Files.Host.{io_ok}
use wasmtime_mysql.Locks.Host.{Windows, NamesObjects}

pub record Entry : Type 0 where
  pub process : ℕ
  pub handle : ℕ
  pub name : List ℕ

pub record Objects : Type 0 where
  pub entries : List Entry
  pub existed : Bool

abbrev pub object : List Entry → ℕ → ℕ → Option (List ℕ)
object [] j k = none
object (e ∷ es) j k = if (e.process == j) && (e.handle == k) then some e.name else object es j k

-- A handle above all others.
abbrev pub next_handle : List Entry → ℕ
next_handle [] = 1
next_handle (e ∷ es) = e.handle + next_handle es

abbrev pub is_named : List ℕ → Option (List ℕ) → Bool
is_named n none = false
is_named n (some m) = eq_text m n

abbrev pub any_named : List ℕ → List Entry → List Entry → Bool
any_named n all [] = false
any_named n all (e ∷ es) = is_named n (object all e.process e.handle) || any_named n all es

abbrev pub without : ℕ → ℕ → List Entry → List Entry
without i h [] = []
without i h (e ∷ es) =
    let rest = without i h es in if (i == e.process) && (h == e.handle) then rest else e ∷ rest

abbrev pub machine : ℕ → Windows Objects ℕ
machine i = record {
  open_path = λ options path w. (io_ok 3, w);
  drop_file = λ file w. w;
  seek_read = λ file len offset w. (io_ok (len, replicate len 9), w);
  seek_write = λ file buf offset w. (io_ok (length buf), w);
  seek = λ file target w. (io_ok 0, w);
  set_len = λ file size w. (io_ok tt, w);
  sync_data = λ file w. (io_ok tt, w);
  sync_all = λ file w. (io_ok tt, w);
  canonicalize = λ path w. none;
  create_file_mapping = λ n w.
      let h = next_handle w.entries in
      (
        h,
        record {
          entries = record { process = i; handle = h; name = n } ∷ w.entries;
          existed = any_named n w.entries w.entries;
        },
      );
  close_handle = λ h w. record w { entries = without i h w.entries };
  get_last_error = λ w. if w.existed then pos 183 else pos 0;
  create_file = λ path w. (0, w);
  flush_file_buffers = λ h w. (pos 1, w);
  error_already_exists = pos 183;
  invalid_handle_value = 0;
  seek_set = pos 0;
  seek_cur = pos 1;
  seek_end = pos 2;
}

next_handle-pos : (es : List Entry) → 1 ≤ next_handle es
next_handle-pos [] = omega arith
next_handle-pos (e ∷ es) = omega (arith, next_handle-pos es)

object_above : (es : List Entry) (j k : ℕ) → next_handle es ≤ k → object es j k ≡ none
object_above [] j k h = refl
object_above (e ∷ es) j k h =
    ground (arith, object_above es j k (omega arith), next_handle-pos es, ==_iff e.handle k)

is_named_sound : (n : List ℕ) (o : Option (List ℕ)) → is_named n o ≡ true → o ≡ some n
is_named_sound n none e = absurd (ground arith)
is_named_sound n (some m) e = ap some (eq_text→eq m n e)

object-without :
    (i h : ℕ) (es : List Entry) (j k : ℕ)
    → object (without i h es) j k ≡ (if (i == j) && (h == k) then none else object es j k)
object-without i h [] j k = ground arith
object-without i h (e ∷ es) j k = ground (
  arith,
  object-without i h es j k,
  ==_iff i j,
  ==_iff h k,
  ==_iff i e.process,
  ==_iff h e.handle,
  ==_iff e.process j,
  ==_iff e.handle k,
)

any_named_found :
    (n : List ℕ) (all es : List Entry) (j k : ℕ)
    → object es j k ≢ none
    → object all j k ≡ some n
    → any_named n all es ≡ true
any_named_found n all [] j k there found = absurd (there refl)
any_named_found n all (e ∷ es) j k there found =
    elim (Bool-cases ((e.process == j) && (e.handle == k))) [
      | inl c ↦
          let (a, b) : (e.process ≡ j) × (e.handle ≡ k) =
            ground (arith, ==_iff e.process j, ==_iff e.handle k) in
          let here : is_named n (object all e.process e.handle) ≡ true =
            ap (is_named n) (ap (λ x. object all x e.handle) a ∙ ap (object all j) b ∙ found)
            ∙ eq_text_refl n in
          rw here refl
      | inr c ↦ ground (arith, any_named_found n all es j k (λ z. there (rw c z)) found)
    ]

any_named_none :
    (n : List ℕ) (all es : List Entry)
    → ((j k : ℕ) → object all j k ≢ some n)
    → any_named n all es ≡ false
any_named_none n all [] unused = refl
any_named_none n all (e ∷ es) unused =
    elim (Bool-cases (is_named n (object all e.process e.handle))) [
      | inl y ↦ absurd (unused e.process e.handle (is_named_sound n _ y))
      | inr y ↦ rw y (any_named_none n all es unused)
    ]

some_is_there {ℓ} : {A : Type ℓ} {o : Option A} {a : A} → o ≡ some a → o ≢ none
some_is_there e n = cc

pub machine-NamesObjects : NamesObjects machine
machine-NamesObjects = record {
  objects = λ w. object w.entries;
  refused = λ i n w z. absurd (ground (arith, next_handle-pos w.entries));
  fresh = λ i n w z. object_above w.entries i (next_handle w.entries) (omega arith);
  created = λ i n w z j k. refl;
  reported = λ i n w z j k found.
      rw (any_named_found n w.entries w.entries j k (some_is_there found) found) refl;
  unreported = λ i n w z unused. rw (any_named_none n w.entries w.entries unused) refl;
  closed = λ i h w j k. object-without i h w.entries j k;
  opened = λ i options p w j k. refl;
  dropped = λ i file w j k. refl;
  read = λ i file len offset w j k. refl;
  written = λ i file buf offset w j k. refl;
  sought = λ i file target w j k. refl;
  resized = λ i file size w j k. refl;
  synced_data = λ i file w j k. refl;
  synced_all = λ i file w j k. refl;
  directory_opened = λ i p w j k. refl;
  directory_handle = λ i p w z. absurd (ground arith);
  flushed_file = λ i h w j k. refl;
}

-- A machine without handles has no objects.
pub no_entries :
    (j k : ℕ) → machine-NamesObjects.objects (record { entries = []; existed = false }) j k ≡ none
unfolding machine-NamesObjects
no_entries j k = refl
