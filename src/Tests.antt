-- ===== src/Tests.antt =====
-- Concrete instances of what the program calls: a byte list for libevent's buffer, a server that answers every
-- command, a disk on which every file has the text `x`, and documents that are their own text.
mod Framing
mod Files
mod Managing
mod Sessions
mod Streams
mod Looping
mod Variables
mod Serving
use rc2compute.Prelude.{
  ℕ, ◌+◌, ◌≡◌, ◌∙◌, refl, ap, Bool, true, false, Option, none, some, List, [], ◌∷◌, ◌++◌, arith,
  Bytes, lit, same, length, take, drop, ◌==◌, if◌then◌else◌,
}
use rc2compute.Effects.{Result, ok}
use rc2compute.Numbers.{ℤ, pos, negsuc}
use rc2compute.InputBuffer.{Evbuffer, InputBuffer}
use rc2compute.World.{World, Statement, DbResult, command_ok, tuples_ok, pe_success, made, Console}
use rc2compute.Database.{Db}
use rc2compute.FileSource.{Source, DbFileInfo}
use rc2compute.FileManager.{Manager}
use rc2compute.FileManager.Messages.{NoSlash, IsSplit}
use rc2compute.Command.{JsonLib, Parsed, parsed}
use rc2compute.Session.{Platform, Session, Watcher}

abbrev pub byte_list : Evbuffer
byte_list = record {
  Buf = Bytes;
  contents = λ b. b;
  new = [];
  add_buffer = λ b x. some (b ++ x);
  get_length = length;
  copyout = λ b n. take n b;
  remove = λ b n. (take n b, drop n b);
  drain = λ b n. drop n b;
  contents-new = refl;
  contents-add_buffer = λ b x. (b ++ x, refl, refl);
  get_length_lem = λ b. refl;
  copyout_lem = λ b n. refl;
  remove_lem = λ b n. (refl, refl);
  contents-drain = λ b n. refl;
}

abbrev pub no_messages : InputBuffer byte_list
no_messages = record { buffer = []; expected_size = 0; current_json = [] }

abbrev answer : Statement → DbResult
answer q =
    if same q.text (lit "select nextval('rcfile_seq'::regclass)")
    then record {
      status = tuples_ok;
      cells = ((b'7' ∷ []) ∷ []) ∷ [];
      affected = [];
      error_message = [];
    }
    else record { status = command_ok; cells = []; affected = b'1' ∷ []; error_message = [] }

cons_head : ℕ → List Bytes → List Bytes
cons_head c [] = (c ∷ []) ∷ []
cons_head c (x ∷ xs) = (c ∷ x) ∷ xs

pub split_at_slash : Bytes → List Bytes
unfolding cons_head
split_at_slash [] = [] ∷ []
split_at_slash (c ∷ cs) =
    let rest = split_at_slash cs in if c == b'/' then [] ∷ rest else cons_head c rest

split_field : (a r : Bytes) → NoSlash a → split_at_slash (a ++ b'/' ∷ r) ≡ a ∷ split_at_slash r
unfolding split_at_slash cons_head
split_field [] r h = refl
split_field (c ∷ cs) r h = rw (h.0, split_field cs r h.1) refl

split_last : (c : Bytes) → NoSlash c → split_at_slash c ≡ c ∷ []
unfolding split_at_slash cons_head
split_last [] h = refl
split_last (c ∷ cs) h = rw (h.0, split_last cs h.1) refl

abbrev pub world_over : Type 0 → World
world_over S = record {
  W = S;
  query = λ d q. (answer q, d);
  escape_literal = λ d t. t;
  consume_input = λ d. (true, d);
  notifies = λ d. (none, d);
  connect_db = λ d t. (none, d);
  stat = λ d p. some 5;
  read_file = λ d p. some (b'x' ∷ []);
  write_file = λ d p t. d;
  utime = λ d p t. d;
  exists = λ d p. true;
  is_directory = λ d p. true;
  file_size = λ d p. some 1;
  remove_file = λ d p. some d;
  remove_all = λ d p. some d;
  mkdir = λ d p m. (made, d);
  copy_file = λ d p q. some d;
  create_directories = λ d p. d;
  append_path = λ p q. p ++ b'/' ∷ q;
  stem = λ p. p;
  extension = λ p. lit ".R";
  parent_path = λ p. p;
  uuid = λ d. (lit "u", d);
  texi2pdf = λ d p. d;
  eval = λ d code.
      ((pe_success, record { text = b'1' ∷ []; is_error = false; visible = true } ∷ []), d);
  help_paths = λ d. ok (lit "/doc/mean" ∷ []);
  inotify_init = λ d. (pos 4, d);
  add_watch = λ d fd p m. (pos 3, d);
  rm_watch = λ d fd wd. d;
  inotify_enabled = λ d. true;
  disable_inotify = λ d. d;
  image_number = λ t. none;
  cut_value = λ t. t;
  split_slash = split_at_slash;
  garbage = λ d. pos 0;
}

abbrev pub test_world : World
test_world = world_over (Unit {0})

pub test_world-IsSplit : IsSplit test_world
test_world-IsSplit = record {
  three_fields = λ a b c ha hb hc.
      split_field a _ ha ∙ ap (λ t. a ∷ t) (split_field b c hb ∙ ap (λ t. b ∷ t) (split_last c hc));
}

abbrev pub db_over : (w : World) → World.W w → Db w
db_over w d = record { world = d; sent = []; open_flag = false }

abbrev pub idle_db : Db test_world
idle_db = db_over test_world tt

abbrev pub old_file : DbFileInfo
old_file = record {
  id = pos 5;
  version = pos 2;
  name = lit "a.R";
  path = lit "a.R";
  watch_descriptor = pos 3;
  sb = none;
}

-- One file, under the id 5.
abbrev pub source_over : (w : World) → World.W w → Source w
source_over w d = record {
  db = db_over w d;
  wspace_id = pos 1;
  working_dir = lit "/tmp/w";
  objects = λ p. old_file;
  next_ptr = 9;
  files_by_id = (pos 5, some 8) ∷ [];
}

abbrev pub one_file : Source test_world
one_file = source_over test_world tt

abbrev pub manager_over : (w : World) → World.W w → Manager w
manager_over w d = record {
  source = source_over w d;
  wspace_id = pos 1;
  session_rec_id = pos 2;
  session_image_batch = pos 0;
  manually_added = [];
  files_by_watch = (pos 3, some 8) ∷ [];
  pending_images = [];
  image_ids = [];
  working_dir = lit "/tmp/w";
  inotify_fd = pos 4;
  root_wd = pos 2;
  ignore_fs = false;
  ignore_db = false;
  timers = 0;
}

abbrev pub manager : Manager test_world
manager = manager_over test_world tt

abbrev pub own_text : JsonLib
own_text = record {
  J = Bytes;
  null = [];
  parse = parsed;
  dump = λ t. t;
  is_null = λ t. false;
  string_at = λ t key. ok t;
  int_at = λ t key. ok (pos 1);
  member = λ t key. none;
  value_string = λ t key default. ok t;
  value_bool = λ t key default. ok default;
  value_int = λ t key default. ok default;
  string = λ t. t;
  number = λ n. [];
  boolean = λ b. [];
  array = λ js. [];
  object = λ members. lit "{}";
}

abbrev no_watcher : Watcher test_world own_text
no_watcher = record {
  Env = Unit {0};
  capture_environment = λ d e. e;
  to_json = λ d e. (ok [], d);
  to_json_named = λ d e t. (ok [], d);
  json_delta = λ d e. ((ok [], e), d);
}

abbrev pub platform_over : {w : World} {js : JsonLib} → Watcher w js → Platform
platform_over {w} {js} watcher = record { ev = byte_list; world = w; js = js; watcher = watcher }

abbrev pub session_over :
    {w : World} {js : JsonLib} (watcher : Watcher w js)
    → Watcher.Env watcher
    → World.W w
    → Session (platform_over watcher)
session_over {w} watcher e d = record {
  manager = manager_over w d;
  input = no_messages;
  env = e;
  written = [];
  tasks = [];
  tmp_dir = lit "/tmp/w";
  console_out = lit "pending";
  std_out_capture = [];
  wspace_id = pos 1;
  session_rec_id = pos 2;
  socket = pos 6;
  current_query_id = pos 0;
  base_ready = true;
  loop_broken = false;
  opened = false;
  ignore_output = false;
  capture_std_out = false;
  source_in_progress = false;
  watch_variables = false;
  properly_closed = false;
}

abbrev pub platform : Platform
platform = platform_over no_watcher

abbrev pub session : Session platform
session = session_over no_watcher tt tt
