-- ===== src/Tests/Sample.antt =====
-- A small JSON library to run the model with, and sample data.
use stoatpp.Prelude.{Bool, true, false, Option, none, some, List, [], ◌∷◌, if◌then◌else◌}
use stoatpp.Prelude.Int.{ℤ, pos}
use stoatpp.Text.{Text, lit, text_eq}
use stoatpp.Json.{JsonLib}
use stoatpp.Models.Role.{Role}
use stoatpp.Models.Member.{Member, no_member}
use stoatpp.Models.Server.{Server}
use stoatpp.Models.User.{User, no_user}
use stoatpp.Events.{Message}
use stoatpp.Cache.State.{Cache}
use stoatpp.Commands.State.{Command, Bot, Hooks, Pending}

mutual
  pub data Value : Type 0 where
    null : Value
    flag : Bool → Value
    number : ℤ → Value
    string : Text → Value
    array : Items → Value
    object : Fields → Value

  pub data Items : Type 0 where
    end : Items
    item : Value → Items → Items

  pub data Fields : Type 0 where
    empty : Fields
    entry : Text → Value → Fields → Fields

abbrev pub items_of : List Value → Items
items_of [] = end
items_of (v ∷ vs) = item v (items_of vs)

abbrev pub list_of : Items → List Value
list_of end = []
list_of (item v vs) = v ∷ list_of vs

abbrev entries_of : Fields → List (Text × Value)
entries_of empty = []
entries_of (entry k v fs) = (k, v) ∷ entries_of fs

abbrev pub find : Text → Fields → Option Value
find k empty = none
find k (entry i v fs) = if text_eq i k then some v else find k fs

abbrev pub present : Option Value → Bool
present none = false
present (some v) = true

abbrev pub content : Option Value → Value
content none = null
content (some v) = v

abbrev pub put : Text → Value → Fields → Fields
put k v empty = entry k v empty
put k v (entry i w fs) = if text_eq i k then entry i v fs else entry i w (put k v fs)

abbrev remove : Text → Fields → Fields
remove k empty = empty
remove k (entry i w fs) = let rest = remove k fs in if text_eq i k then rest else entry i w rest

abbrev pub fields_of : Value → Fields
fields_of (object fs) = fs
fields_of _ = empty

-- Values are not printed or parsed here.
abbrev pub sample_json : JsonLib
sample_json = record {
  Json = Value;
  null = null;
  object = object empty;
  array = λ vs. array (items_of vs);
  of_text = λ s. string s;
  of_int = λ n. number n;
  of_bool = λ b. flag b;
  is_null = elim [ null ↦ true | _ ↦ false ];
  is_object = elim [ object fs ↦ true | _ ↦ false ];
  is_array = elim [ array vs ↦ true | _ ↦ false ];
  is_string = elim [ string s ↦ true | _ ↦ false ];
  is_number = elim [ number n ↦ true | _ ↦ false ];
  is_boolean = elim [ flag b ↦ true | _ ↦ false ];
  contains = λ v k. present (find k (fields_of v));
  field = λ v k. content (find k (fields_of v));
  with_field = λ v k w. object (put k w (fields_of v));
  without_field = λ v k. object (remove k (fields_of v));
  get_string = elim [ string s ↦ s | _ ↦ [] ];
  get_int = elim [ number n ↦ n | _ ↦ pos 0 ];
  get_int64 = elim [ number n ↦ n | _ ↦ pos 0 ];
  get_bool = elim [ flag b ↦ b | _ ↦ false ];
  elements = elim [ array vs ↦ list_of vs | _ ↦ [] ];
  items = λ v. entries_of (fields_of v);
  dump = λ v. [];
  parse = λ s. none;
}

abbrev pub moderator : Role sample_json
moderator = record {
  id = lit "r1";
  name = lit "mods";
  colour = none;
  rank = pos 2;
  permissions = number (pos 6);
  raw = null;
}

abbrev pub alice : Member sample_json
alice = record (no_member sample_json) {
  id = lit "alice";
  server_id = lit "s1";
  roles = lit "r1" ∷ [];
}

abbrev pub bob : Member sample_json
bob = record (no_member sample_json) { id = lit "bob"; server_id = lit "s1" }

abbrev pub home : Server sample_json
home = record {
  id = lit "s1";
  owner = lit "owner";
  name = lit "home";
  description = none;
  channels = lit "c1" ∷ [];
  roles = moderator ∷ [];
  icon = none;
  banner = none;
  flags = pos 0;
  raw = object (entry (lit "default_permissions") (number (pos 1)) empty);
}

abbrev pub sample_user : User sample_json
sample_user = record (no_user sample_json) { id = lit "alice"; username = lit "Alice" }

abbrev pub sample_cache : Cache sample_json
sample_cache = record {
  server_cache = (lit "s1", home) ∷ [];
  channel_cache = [];
  user_cache = [];
  member_cache = (lit "s1", (lit "alice", alice) ∷ []) ∷ [];
  current_user = no_user sample_json;
  pending = [];
}

abbrev pub ban : Command
ban = record {
  name = lit "ban";
  aliases = lit "hammer" ∷ [];
  description = [];
  usage = [];
  args = [];
  category = [];
  required_permissions = pos 4;
  cooldown_seconds = pos 5;
  subcommands = [];
}

abbrev pub sample_message : Message sample_json
sample_message = record {
  id = lit "m1";
  channel_id = lit "c1";
  server_id = lit "s1";
  author = sample_user;
  content = lit "!ban bob";
  nonce = [];
  edited = false;
  prefix = [];
  replies = [];
  mentions = [];
  attachments = [];
  raw = object empty;
}

abbrev pub sample_hooks : Hooks sample_json
sample_hooks = record {
  command_prefix = lit "!";
  case_insensitive_commands = true;
  prefix_resolver = none;
  message_preprocessor = none;
  command_run_handler = none;
  command_disabled_checker = none;
  command_cooldown_handler = true;
  command_error_handler = true;
}

abbrev pub sample_bot : Bot sample_json
sample_bot = record {
  cache = sample_cache;
  registered_commands = ban ∷ [];
  commands = [];
  command_cooldowns = [];
  commands_executed = 3;
}

abbrev pub sample_pending : Pending sample_json
sample_pending = record { msg = sample_message; command = ban; args = lit "bob" ∷ [] }
