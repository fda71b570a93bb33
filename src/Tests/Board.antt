-- ===== src/Tests/Board.antt =====
-- A small board: two areas of storage, an additive checksum, and the callbacks of a boot loader.
use rt_thread_qboot.Base.{
  ℕ, zero, suc, ◌+◌, ◌-◌, ◌%◌, ◌≡◌, refl, Bool, false, none, some, List, [], ◌∷◌, ◌++◌, take, slice,
  length, length-append, take-all, length-take, u32_mod, arith,
}
use rt_thread_qboot.Storage.{eok, IoOps, ParserOps, StoreDesc, fal}
use rt_thread_qboot.Storage.Frame.{IoFrame, ParserFrame, HandleCount, SizesKnown}
use rt_thread_qboot.Storage.Targets.{app_part_name, download_part_name, factory_part_name}
use rt_thread_qboot.Algo.{Tables, empty_tables}
use rt_thread_qboot.Algo.NoneCodec.{none_register}
use rt_thread_qboot.Stream.{StreamCfg}
use rt_thread_qboot.Boot.{Crc}
use rt_thread_qboot.Boot.Checksum.{CrcLaws, Readable}
use rt_thread_qboot.Boot.Copied.{Writable}
use rt_thread_qboot.Update.{UpdateOps}
use rt_thread_qboot.Update.Session.{OpsFrame}

pub record Board : Type 0 where
  pub live : ℕ
  pub probes : ℕ
  pub reason : ℕ
  pub now : ℕ
  pub valid : Bool
  pub image : List ℕ
  pub download : List ℕ

-- Target 0 is the image, any other the package.
abbrev area : ℕ → Board → List ℕ
area zero b = b.image
area (suc n) b = b.download

-- What an open handle adds to `live`: no two handles can stand in for one another.
abbrev pub weigh : ℕ → ℕ
weigh h = h + 1

abbrev pub io : IoOps Board ℕ
io = record {
  open_target = λ id flags b. (some id, record b { live = b.live + weigh id });
  close = λ h b. (eok, record b { live = b.live - weigh h });
  read = λ h off len b. (some (slice off len (area h b)), b);
  erase = λ h off len b. (eok, b);
  write = λ h off bytes b. (eok, record b { image = take off b.image ++ bytes });
  size = λ h b. (some 100, b);
  ioctl = λ h cmd b. (none, b);
}

abbrev pub parser : ParserOps Board ℕ
parser = record {
  sign_read = λ h fw b. (some false, b);
  sign_write = λ h fw b. (eok, b);
  sign_clear = λ h fw b. (eok, b);
}

abbrev pub feed : Board → Board
feed b = b

abbrev pub callbacks : UpdateOps Board
callbacks = record {
  is_app_valid = λ b. (b.valid, b);
  get_reason = λ b. (b.reason, b);
  set_reason = λ r b. record b { reason = r };
  enter_download = λ b. b;
  leave_download = λ b. b;
  on_error = λ e b. b;
  on_ready_to_app = λ b. b;
  try_recover = λ ok b. (ok, record b { probes = b.probes + 1 });
  tick_get = λ b. (b.now, b);
  mdelay = λ d b. record b { now = b.now + d };
  tick_from_millisecond = λ ms. ms;
}

abbrev pub desc : ℕ → List ℕ → StoreDesc
desc id name = record {
  id = id;
  role_name = name;
  store_name = name;
  flash_addr = 0;
  flash_len = 100;
  backend = fal;
}

abbrev pub descs : List StoreDesc
descs = desc 0 app_part_name ∷ desc 1 download_part_name ∷ desc 2 factory_part_name ∷ []

abbrev pub cfg : StreamCfg
cfg = record { cmprs_read_size = 3; buf_size = 2; src_read_pos = 96; enospc = 28 }

abbrev pub tables : Tables Board
tables = (none_register 28 empty_tables).1

-- A checksum that adds the bytes up.
abbrev add_up : ℕ → List ℕ → ℕ
add_up c [] = c
add_up c (x ∷ xs) = add_up ((c + x) % u32_mod) xs

abbrev pub crc : Crc
crc = record { cal = add_up 0; cyc_cal = add_up }

add_up-append : (c : ℕ) (xs ys : List ℕ) → add_up c (xs ++ ys) ≡ add_up (add_up c xs) ys
add_up-append c [] ys = refl
add_up-append c (x ∷ xs) ys = add_up-append ((c + x) % u32_mod) xs ys

pub crc_laws : CrcLaws crc
crc_laws = record { cyc_nil = λ c. refl; cyc_append = add_up-append }

pub live_count : HandleCount io weigh (λ b. b.live)
live_count = record {
  open_counts = λ id flags b. refl;
  close_counts = λ h b le. refl;
  read_counts = λ h off len b. refl;
  erase_counts = λ h off len b. refl;
  write_counts = λ h off bs b. refl;
  size_counts = λ h b. refl;
}

pub sizes : SizesKnown io
sizes = λ h b e. ground arith

pub live_parser : ParserFrame parser (λ b. b.live)
live_parser = record {
  sign_read_keeps = λ h fw b. refl;
  sign_write_keeps = λ h fw b. refl;
  sign_clear_keeps = λ h fw b. refl;
}

pub live_callbacks : OpsFrame callbacks (λ b. b.live)
live_callbacks = record {
  valid_keeps = λ b. refl;
  get_keeps = λ b. refl;
  set_keeps = λ r b. refl;
  enter_keeps = λ b. refl;
  leave_keeps = λ b. refl;
  error_keeps = λ e b. refl;
  ready_keeps = λ b. refl;
  tick_keeps = λ b. refl;
  delay_keeps = λ d b. refl;
}

pub probes_io : IoFrame io (λ b. b.probes)
probes_io = record {
  open_keeps = λ id flags b. refl;
  close_keeps = λ h b. refl;
  read_keeps = λ h off len b. refl;
  erase_keeps = λ h off len b. refl;
  write_keeps = λ h off bs b. refl;
  size_keeps = λ h b. refl;
}

pub probes_parser : ParserFrame parser (λ b. b.probes)
probes_parser = record {
  sign_read_keeps = λ h fw b. refl;
  sign_write_keeps = λ h fw b. refl;
  sign_clear_keeps = λ h fw b. refl;
}

pub probes_callbacks : OpsFrame callbacks (λ b. b.probes)
probes_callbacks = record {
  valid_keeps = λ b. refl;
  get_keeps = λ b. refl;
  set_keeps = λ r b. refl;
  enter_keeps = λ b. refl;
  leave_keeps = λ b. refl;
  error_keeps = λ e b. refl;
  ready_keeps = λ b. refl;
  tick_keeps = λ b. refl;
  delay_keeps = λ d b. refl;
}

pub image_area : (room : ℕ) → Readable io 0 (λ b. b.image) room
image_area room = record { read_gets = λ off len b fits. refl; read_content = λ off len b. refl }

pub package_area : (room : ℕ) → Readable io 1 (λ b. b.download) room
package_area room = record { read_gets = λ off len b fits. refl; read_content = λ off len b. refl }

pub image-Writable : Writable io 0 (λ b. b.download) (λ b. b.image) feed
image-Writable = record {
  write_puts = λ off bytes b e.
      take-all (off + length bytes) (take off b.image ++ bytes)
        (omega (arith, length-append (take off b.image) bytes, length-take off b.image));
  write_source = λ off bytes b. refl;
  erase_source = λ off len b. refl;
  feed_source = λ b. refl;
}

-- A board with open handles, a reason, and a package in DOWNLOAD.
abbrev pub board : ℕ → ℕ → Bool → List ℕ → Board
board live reason valid download = record {
  live = live;
  probes = 0;
  reason = reason;
  now = 1000;
  valid = valid;
  image = [];
  download = download;
}
