-- ===== src/Simulator.antt =====
-- A small SDK for the tests: a Runtime Manager with two registered instances, each of whose areas has 8
-- bytes, and a state that holds the bit written last and
-- counts the buffers, libraries and tokens that are in use. Texts are ASCII, where both conversions copy.
use plcsim_connector.Common.{
  ◌++◌, ◌-◌, ℕ, zero, suc, Bool, true, false, Option, none, some, List, [], ◌∷◌, if◌then◌else◌,
  length, ◌==◌, codes,
}
use plcsim_connector.Common.Int.{ℤ, pos, negsuc, ◌==ℤ◌}
use plcsim_connector.Sdk.{Sdk, Codes, Enums, Wide}

pub record State : Type 0 where
  pub available : Bool
  pub removed : Bool
  pub bit : Bool
  pub resources : ℕ

abbrev pub idle : State
idle = record { available = true; removed = false; bit = false; resources = 0 }

-- The Runtime Manager has dropped the interfaces, and the bit was written once.
abbrev pub worn : State
worn = record idle { removed = true; bit = true }

abbrev pub sample_codes : Codes
sample_codes = record {
  does_not_exist = negsuc 0;
  interface_removed = negsuc 1;
  timeout = negsuc 2;
  instance_not_running = negsuc 3;
  not_running = negsuc 4;
  index_out_of_range = negsuc 5;
  wrong_argument = negsuc 6;
  limit_reached = negsuc 7;
  runtime_not_available = negsuc 8;
  connection_error = negsuc 9;
  api_not_initialized = negsuc 10;
  error_loading_dll = negsuc 11;
  wrong_version = negsuc 12;
}

abbrev pub sample_enums : Enums
sample_enums = record {
  sra_input = pos 129;
  sra_output = pos 130;
  sra_marker = pos 131;
  sros_off = pos 1;
  sros_booting = pos 2;
  sros_stop = pos 3;
  sros_startup = pos 4;
  sros_run = pos 6;
  sros_freeze = pos 7;
  sros_shutting_down = pos 8;
  sros_hold = pos 10;
}

abbrev pub answer_for : State → ℤ
answer_for s = if s.removed then negsuc 1 else pos 0

abbrev pub registered : List (ℤ × Wide)
registered = (pos 1, codes "A") ∷ (pos 2, codes "B") ∷ []

abbrev pub entry : List (ℤ × Wide) → ℕ → ℤ × (ℤ × Wide)
entry [] i = (negsuc 5, (pos 0, []))
entry (row ∷ rows) zero = (pos 0, row)
entry (row ∷ rows) (suc i) = entry rows i

abbrev by_name : Wide → ℤ × Option ℕ
by_name [] = (negsuc 0, none)
by_name (c ∷ w) = if c == b'A' then (pos 0, some 7) else (negsuc 0, none)

abbrev by_id : ℤ → ℤ × Option ℕ
by_id id = if id ==ℤ pos 1 then (pos 0, some 7) else (negsuc 0, none)

abbrev take : State → State
take s = record s { resources = suc s.resources }

abbrev give : State → State
give s = record s { resources = s.resources - 1 }

abbrev pub sample : Sdk State
sample = record {
  codes = sample_codes;
  enums = sample_enums;
  get_name_of_error_code = λ code. some (codes "SREC");
  wide_char_to_multi_byte = λ w size. (pos (suc (length w)), w ++ 0 ∷ []);
  multi_byte_to_wide_char = λ s size. (pos (length s), s);
  set_last_error = λ code s. s;
  get_last_error = λ s. 126;
  format_message = λ code s. ((6, some (codes "Oops\r\n")), take s);
  local_free = λ w s. give s;
  load_library = λ path s. (some 3, take s);
  free_library = λ handle s. give s;
  open_process_token = λ s. ((true, 4), take s);
  get_token_elevation = λ token s. ((true, 1), s);
  close_handle = λ token s. give s;
  initialize_api = λ path s. ((pos 0, some 1), s);
  shutdown_and_free_api = λ m s. s;
  is_runtime_manager_available = λ m s. (s.available, s);
  get_registered_instances_count = λ m s. (3, s);
  get_registered_instance_info_at = λ m i s. (entry registered i, s);
  create_interface_by_name = λ m w s. (by_name w, s);
  create_interface_by_id = λ m id s. (by_id id, s);
  get_version = λ m s. (524288, s);
  destroy_interface = λ raw s. s;
  get_id = λ raw s. (pos 1, s);
  get_name = λ raw size s. ((pos 0, codes "A"), s);
  get_area_size = λ raw area s. (8, s);
  write_bit = λ raw area byte bit value s. (answer_for s, record s { bit = value });
  read_bit = λ raw area byte bit s. ((answer_for s, s.bit), s);
  run = λ raw s. (answer_for s, s);
  stop = λ raw s. (answer_for s, s);
  get_operating_state = λ raw s. (pos 6, s);
}
