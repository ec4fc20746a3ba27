-- ===== src/LtFsService/AtaDriver.antt =====
-- userland/system/LtFsService/src/AtaDriver.h and AtaDriver.cpp: a disk that is read and written a
-- sector at a time through ports. The ports are a parameter, as is what HeapAlloc answers. The loops
-- that wait for the drive take fuel. A result of `none` is -EIO.
pub mod Reading
use lt_micros.Base.{
  ℕ, zero, suc, ◌+◌, ◌-◌, ◌*◌, ◌/◌, ◌%◌, Option, none, some, List, [], ◌∷◌, ◌++◌, Bool, true, false,
  not, ◌&&◌, ◌||◌, if◌then◌else◌, ◌==◌, ltb, leb, take, drop,
}
use lt_micros.Base.Words.{add32, u32_mod}
use lt_micros.LtFsService.{Answer, ok, err, fault, running, ◌>>=◌}

abbrev pub ata_block_size : ℕ
ata_block_size = 512

-- The registers, from the data port on.
abbrev pub ata_reg_features : ℕ
ata_reg_features = 1

abbrev pub ata_reg_hddevsel : ℕ
ata_reg_hddevsel = 6

abbrev pub ata_reg_status : ℕ
ata_reg_status = 7

abbrev pub ata_reg_control : ℕ
ata_reg_control = 12

abbrev pub ata_reg_altstatus : ℕ
ata_reg_altstatus = 12

-- ATA_CMD_READ_PIO, ATA_CMD_WRITE_PIO, ATA_CMD_CACHE_FLUSH and ATA_CMD_IDENTIFY
abbrev pub ata_cmd_read_pio : ℕ
ata_cmd_read_pio = 0x20

abbrev pub ata_cmd_write_pio : ℕ
ata_cmd_write_pio = 0x30

abbrev pub ata_cmd_cache_flush : ℕ
ata_cmd_cache_flush = 0xe7

abbrev pub ata_cmd_identify : ℕ
ata_cmd_identify = 0xec

-- The bits of the status: ATA_SR_BSY, ATA_SR_DF, ATA_SR_DRQ and ATA_SR_ERR
abbrev pub is_busy : ℕ → Bool
is_busy status = status / 128 % 2 == 1

abbrev pub has_fault : ℕ → Bool
has_fault status = status / 32 % 2 == 1

abbrev pub has_data : ℕ → Bool
has_data status = status / 8 % 2 == 1

abbrev pub has_error : ℕ → Bool
has_error status = status % 2 == 1

-- The ports of the machine: a byte is read or written, or a word of 16 bits.
pub record Ports : Type 1 where
  pub Machine : Type 0
  pub inb : ℕ → Machine → ℕ × Machine
  pub inw : ℕ → Machine → ℕ × Machine
  pub outb : (port value : ℕ) → Machine → Machine
  pub outw : (port value : ℕ) → Machine → Machine

pub record AtaDevice : Type 0 where
  pub type : ℕ
  pub data_port : ℕ
  pub error_port : ℕ
  pub sector_count_port : ℕ
  pub lba_low_port : ℕ
  pub lba_mid_port : ℕ
  pub lba_hi_port : ℕ
  pub device_port : ℕ
  pub command_port : ℕ
  pub control_port : ℕ

-- AtaCreate
unfoldable pub ata_create : (io_port type : ℕ) → AtaDevice
ata_create io_port type = record {
  type = type;
  data_port = io_port;
  error_port = io_port + 1;
  sector_count_port = io_port + 2;
  lba_low_port = io_port + 3;
  lba_mid_port = io_port + 4;
  lba_hi_port = io_port + 5;
  device_port = io_port + 6;
  command_port = io_port + 7;
  control_port = io_port + 0x206;
}

module _ (ports : Ports) where
  open ports use {Machine, inb, inw, outb, outw}

  -- AtaStatusWait without a timeout, and with one of `timeout` rounds.
  unfoldable pub ata_status_wait : (fuel io_base : ℕ) → Machine → Answer (ℕ × Machine)
  ata_status_wait zero io_base m = running
  ata_status_wait (suc fuel) io_base m =
      let (status, m') = inb (io_base + ata_reg_status) m in
      elim (is_busy status) [ false ↦ ok (status, m') | true ↦ ata_status_wait fuel io_base m' ]

  unfoldable pub ata_status_wait_for : (timeout io_base : ℕ) → Machine → ℕ × Machine
  ata_status_wait_for zero io_base m = inb (io_base + ata_reg_status) m
  ata_status_wait_for (suc timeout) io_base m =
      let (status, m') = inb (io_base + ata_reg_status) m in
      elim (is_busy status) [ false ↦ (status, m') | true ↦ ata_status_wait_for timeout io_base m' ]

  -- AtaIoWait
  unfoldable pub ata_io_wait : ℕ → Machine → Machine
  ata_io_wait io m =
      let again = λ (n : Machine). (inb (io + ata_reg_altstatus) n).1 in
      again (again (again (again m)))

  -- AtaWait: whether something is wrong, when `adv` asks.
  unfoldable pub ata_wait : (fuel io : ℕ) → Bool → Machine → Answer (Bool × Machine)
  unfolding ata_status_wait ata_io_wait
  ata_wait fuel io adv m = ata_status_wait fuel io (ata_io_wait io m) >>= λ (status, m').
      if adv
      then (let (again, m'') = inb (io + ata_reg_status) m' in
          ok (has_error again || has_fault again || not (has_data again), m''))
      else ok (false, m')

  -- The commands that begin the transfer of one sector.
  unfoldable pub select_sector : AtaDevice → (command lba : ℕ) → Machine → Machine
  select_sector device command lba m =
      let drive = outb (device.data_port + ata_reg_hddevsel) (0xe0 + lba / 0x100_0000 % 16) m in
      let features = outb (device.data_port + ata_reg_features) 0 drive in
      let count = outb device.sector_count_port 1 features in
      let low = outb device.lba_low_port (lba % 256) count in
      let mid = outb device.lba_mid_port (lba / 256 % 256) low in
      let hi = outb device.lba_hi_port (lba / 65536 % 256) mid in
      outb device.command_port command hi

  -- `n` words of the data port, as bytes.
  unfoldable pub read_words : ℕ → AtaDevice → Machine → List ℕ × Machine
  read_words zero device m = ([], m)
  read_words (suc n) device m =
      let (d, m') = inw device.data_port m in
      let (bytes, m'') = read_words n device m' in (d % 256 ∷ d / 256 % 256 ∷ bytes, m'')

  -- The tries of AtaReadSectorPio, for those that are left.
  unfoldable pub read_tries :
      (tries fuel : ℕ) → AtaDevice → (lba : ℕ) → Machine → Answer (Option (List ℕ) × Machine)
  unfolding ata_wait select_sector read_words
  read_tries zero fuel device lba m = ok (none, m)
  read_tries (suc tries) fuel device lba m =
      ata_wait fuel device.data_port false (outb (device.data_port + ata_reg_control) 2 m)
      >>= λ (w, idle).
          ata_wait fuel device.data_port true (select_sector device ata_cmd_read_pio lba idle)
          >>= λ (wrong, m'). elim wrong [
            | true ↦ read_tries tries fuel device lba m'
            | false ↦
                let (bytes, m'') = read_words 256 device m' in
                ata_wait fuel device.data_port false m'' >>= λ (v, after). ok (some bytes, after)
          ]

  -- AtaReadSectorPio: the error counter stops the fifth failure.
  unfoldable pub ata_read_sector_pio :
      (fuel : ℕ) → AtaDevice → (lba : ℕ) → Machine → Answer (Option (List ℕ) × Machine)
  unfolding read_tries
  ata_read_sector_pio = read_tries 5

  -- The loop of AtaRead over `n` sectors.
  unfoldable pub read_sectors :
      (n fuel : ℕ) → AtaDevice → (lba : ℕ) → Machine → Answer (Option (List ℕ) × Machine)
  unfolding ata_read_sector_pio
  read_sectors zero fuel device lba m = ok (some [], m)
  read_sectors (suc n) fuel device lba m = ata_read_sector_pio fuel device lba m >>= λ (sector, m').
      elim sector [
        | none ↦ ok (none, m')
        | some bytes ↦ read_sectors n fuel device (add32 lba 1) m' >>= λ (others, m'').
            elim others [ none ↦ ok (none, m'') | some behind ↦ ok (some (bytes ++ behind), m'') ]
      ]

  -- AtaRead with the bytes of `buf`: those afterwards, whether interrupts are enabled, and the machine.
  -- Without memory the buffer stays as it is. Where offset and size wrap no sector is read; the copy of
  -- what the new buffer held is then not modelled.
  unfoldable pub ata_read :
      (fuel : ℕ)
      → Bool
      → AtaDevice
      → (offset size : ℕ) → List ℕ
      → (irq : Bool) → Machine
      → Answer (Option (List ℕ) × Bool × Machine)
  unfolding read_sectors
  ata_read fuel allocated device offset size buf irq m =
      let first = offset / ata_block_size in
      let last = add32 offset size / ata_block_size in
      if not allocated
      then ok (some buf, irq, m)
      else read_sectors (last + 1 - first) fuel device first m >>= λ (sectors, m'). elim sectors [
        | none ↦ ok (none, false, m')
        | some bytes ↦ ok (some (take size (drop (offset % ata_block_size) bytes)), true, m')
      ]

  -- The words that AtaWriteSectorPio sends, for those left: 0 behind the limit.
  unfoldable pub write_words : (n i limit : ℕ) → AtaDevice → (ℕ → ℕ) → Machine → Machine
  write_words zero i limit device buf m = m
  write_words (suc n) i limit device buf m =
      write_words n (i + 1) limit device buf
        (outw device.data_port (if ltb i limit then buf i else 0) m)

  -- AtaWriteSectorPio; `buf` gives the words from the buffer's address on.
  unfoldable pub ata_write_sector_pio :
      (fuel : ℕ) → AtaDevice → (ℕ → ℕ) → (lba size : ℕ) → Machine → Answer Machine
  unfolding ata_wait write_words
  ata_write_sector_pio fuel device buf lba size m =
      let io = device.data_port in
      ata_wait fuel io false (outb (io + ata_reg_control) 2 m) >>= λ (a, idle).
      ata_wait fuel io false (outb (io + ata_reg_hddevsel) (0xe0 + lba / 0x100_0000 % 16) idle)
      >>= λ (b, selected).
          let features = outb (io + ata_reg_features) 0 selected in
          let count = outb device.sector_count_port 1 features in
          let low = outb device.lba_low_port (lba % 256) count in
          let mid = outb device.lba_mid_port (lba / 256 % 256) low in
          let hi = outb device.lba_hi_port (lba / 65536 % 256) mid in
          ata_wait fuel io false (outb device.command_port ata_cmd_write_pio hi) >>= λ (c, ready).
          let limit = if leb ata_block_size size then 256 else size / 2 in
          let sent = write_words 256 0 limit device buf ready in
          ata_wait fuel io false (outb device.command_port ata_cmd_cache_flush sent)
          >>= λ (d, flushed). ok flushed

  -- The loop of AtaWrite, for the sectors left: `buffer += ATA_BLOCK_SIZE` steps over as many words.
  unfoldable pub write_sectors :
      (count fuel : ℕ) → AtaDevice → (ℕ → ℕ) → (lba size : ℕ) → Machine → Answer Machine
  unfolding ata_write_sector_pio
  write_sectors zero fuel device buf lba size m = ok m
  write_sectors (suc count) fuel device buf lba size m = elim (size == 0) [
    | true ↦ ok m
    | false ↦ ata_write_sector_pio fuel device buf lba size m >>= λ m'.
        let step = if leb ata_block_size size then ata_block_size else size in
        write_sectors count fuel device (λ i. buf (step + i)) (add32 lba 1) (size - step) m'
  ]

  -- AtaWrite: the number of sectors; `none` is -1, for an offset within a sector.
  unfoldable pub ata_write :
      (fuel : ℕ) → AtaDevice → (ℕ → ℕ) → (offset size : ℕ) → Machine → Answer (Option ℕ × Machine)
  unfolding write_sectors
  ata_write fuel device buf offset size m =
      let count = if ltb ata_block_size size then size / ata_block_size else 1 in
      if not (offset % ata_block_size == 0)
      then ok (none, m)
      else write_sectors count fuel device buf (offset / ata_block_size) size m >>= λ m'.
          ok (some count, m')

  -- AtaIdentify, which is AtaInit: whether there is a drive.
  unfoldable pub ata_identify : AtaDevice → Machine → Bool × Machine
  unfolding read_words
  ata_identify device m =
      let drive = outb device.device_port device.type m in
      let count = outb device.sector_count_port 0 drive in
      let low = outb device.lba_low_port 0 count in
      let mid = outb device.lba_mid_port 0 low in
      let hi = outb device.lba_hi_port 0 mid in
      let asked = outb device.command_port ata_cmd_identify hi in
      let (status, m') = inb (device.data_port + ata_reg_status) asked in
      if status == 0 then (false, m') else (true, (read_words 256 device m').1)
