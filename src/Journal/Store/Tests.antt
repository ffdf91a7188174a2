-- ===== src/Journal/Store/Tests.antt =====
-- internal/journal/store.go on a concrete system.
use red_mpudp.Prelude.{
  refl, false, ◌≡◌, ◌↔◌, inr, ℕ, suc, true, [], ◌∷◌, none, some, ◌==◌, if◌then◌else◌,
}
use red_mpudp.Prelude.Int.{pos}
use red_mpudp.Prelude.Bytes.{codes}
use red_mpudp.Journal.Schema.{Journal}
use red_mpudp.Journal.Store.{Reader, load}
use red_mpudp.Journal.Store.Directory.{Directories, ensure_dir, IsUsable, ensure_dir-IsUsable}
use red_mpudp.Journal.Store.Loading.{IsStored, load_iff}
use red_mpudp.Journal.Store.Writing.{Writer, write_to, with_schema}
use red_mpudp.Journal.Store.Writing.Atomic.{IsWritten, write_to-IsWritten}

abbrev journal : Journal
journal = record {
  schema = pos 0;
  role = codes "client";
  instance_id = codes "instance-1";
  created_at = 0;
  routes = [];
  rules = [];
  tables = 200 ∷ [];
  nft_tables = [];
  sysctls = [];
  resolver = none;
}

-- One file, of root, that holds the journal.
abbrev reader : Reader ℕ ℕ
reader = record {
  open_nofollow = λ path. inr 3;
  stat = λ f. inr (record { is_regular = true; mode = 384; links = 1; uid = 0 }, true);
  read_all = λ f. inr (codes "{}");
  euid = 1000;
  decode = λ text. inr (journal, true);
}

load_iff_example : (load reader (codes "/run/red-mpudp/j") ≡ inr journal) ↔ (
    (f : ℕ) × (reader.open_nofollow (codes "/run/red-mpudp/j") ≡ inr f) × IsStored reader f journal)
load_iff_example = load_iff reader (codes "/run/red-mpudp/j") journal

-- A system that counts its calls, on which the call of one number fails.
abbrev writer : ℕ → Writer ℕ ℕ
writer limit = record {
  marshal = λ j. inr (codes "{}");
  dir_of = λ path. codes "/run";
  create_temp = λ dir w. (w, inr (codes "/run/t"));
  do_call = λ c w. (suc w, if w == limit then some w else none);
  is_einval = λ e. false;
}

write_to-IsWritten_example :
    IsWritten
      (writer 2)
      (with_schema (writer 2) journal)
      (codes "/run/j")
      (write_to (writer 2) journal (codes "/run/j") 0)
write_to-IsWritten_example = write_to-IsWritten (writer 2) journal (codes "/run/j") 0

-- A directory of root that is there already, with its mode as the state.
abbrev directories : Directories ℕ ℕ
directories = record {
  mkdir_all = λ dir mode w. (w, none);
  lstat = λ dir w. inr (record { is_symlink = false; is_dir = true; owner = some 0; mode = w });
  chmod = λ dir mode w. (mode, none);
  euid = 1000;
}

-- The mode 0755.
ensure_dir-IsUsable_example :
    ((directories.mkdir_all (codes "/run/red-mpudp") 448 493).1 ≡ none)
    × IsUsable directories (codes "/run/red-mpudp") 493 448
unfolding ensure_dir
ensure_dir-IsUsable_example = ensure_dir-IsUsable directories (codes "/run/red-mpudp") 493 refl
