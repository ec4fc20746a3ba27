-- ===== src/LtFsService/AtaDriver/Reading.antt =====
-- AtaRead: the bytes that it answers, and what it does when the drive fails.
use lt_micros.Base.{
  ℕ, zero, suc, ◌+◌, ◌-◌, ◌*◌, ◌/◌, ◌%◌, ◌≤◌, ◌<◌, ◌≡◌, refl, ap, ◌∙◌, none, some, List, ◌∷◌, ◌++◌,
  Bool, ◌^◌, true, false, arith, take, drop,
}
use lt_micros.Base.Words.{u32_mod, add32}
use lt_micros.LtFsService.{ok, err, fault, running}
use lt_micros.LtFsService.Bytes.{bytes_at, bytes_at-append, take-bytes_at, drop-bytes_at}
use lt_micros.LtFsService.Ext2.{Reader, IsReader}
use lt_micros.LtFsService.AtaDriver.{
  Ports, AtaDevice, ata_block_size, ata_reg_status, ata_reg_altstatus, is_busy, has_error,
  has_fault, has_data, ata_status_wait, ata_wait, read_tries, read_words, ata_io_wait,
  select_sector, ata_create, ata_cmd_read_pio, ata_reg_control, ata_read_sector_pio, read_sectors,
  ata_read,
}

-- The bytes written to the registers of a drive at `io` to read the sector `lba`, in their order: which
-- drive and the bits from 24 on, no features, one sector, the other bits of the number, the lowest
-- first, and the command READ SECTORS.
abbrev pub command_read : (ports : Ports) → (io lba : ℕ) → ports.Machine → ports.Machine
command_read ports io lba m = ports.outb (io + 7) 0x20 (
    ports.outb (io + 5) (lba / 65536 % 256) (
      ports.outb (io + 4) (lba / 256 % 256) (
        ports.outb (io + 3) (lba % 256) (
          ports.outb (io + 2) 1
            (ports.outb (io + 1) 0 (ports.outb (io + 6) (0xe0 + lba / 0x100_0000 % 16) m))))))

-- The ports from `io` on are those of a drive in LBA mode with the bytes `disk` that is always ready: its
-- status shows neither BSY nor DF nor ERR, but DRQ. `next` is the place of the disk that the next word of
-- the data port comes from; the lower byte of a word is the first of the two.
pub record IsDrive (ports : Ports) (io : ℕ) (disk : ℕ → ℕ) : Type 0 where
  pub next : ports.Machine → ℕ
  pub byte : (i : ℕ) → disk i < 256
  pub idle : (port : ℕ) (m : ports.Machine) → is_busy (ports.inb port m).0 ≡ false
  pub sound : (port : ℕ) (m : ports.Machine) → has_error (ports.inb port m).0 ≡ false
  pub whole : (port : ℕ) (m : ports.Machine) → has_fault (ports.inb port m).0 ≡ false
  pub ready : (port : ℕ) (m : ports.Machine) → has_data (ports.inb port m).0 ≡ true
  pub watched : (port : ℕ) (m : ports.Machine) → next (ports.inb port m).1 ≡ next m
  pub commanded :
      (lba : ℕ) (m : ports.Machine) → lba < 2 ^ 28 → next (command_read ports io lba m) ≡ lba * 512
  pub word : (m : ports.Machine) → (ports.inw io m).0 ≡ disk (next m) + 256 * disk (next m + 1)
  pub moved : (m : ports.Machine) → next (ports.inw io m).1 ≡ next m + 2

module _ (ports : Ports) (fuel io type : ℕ) (positive : 0 < fuel) (disk : ℕ → ℕ)
    (drive : IsDrive ports io disk) where
  open ports use {Machine}

  ready_wait :
      (rounds port : ℕ) (m : Machine)
      → 0 < rounds
      → ata_status_wait ports rounds port m ≡ ok (ports.inb (port + ata_reg_status) m)
  unfolding ata_status_wait
  ready_wait zero port m h = absurd (omega arith)
  ready_wait (suc rounds) port m h = rw (drive.idle (port + ata_reg_status) m, ata_status_wait) refl

  -- What AtaWait answers, and that the drive goes on where it was.
  ready_waits :
      (port : ℕ) (adv : Bool) (m : Machine)
      → (after : Machine) × (ata_wait ports fuel port adv m ≡ ok (false, after))
        × (drive.next after ≡ drive.next m)
  unfolding ata_wait ata_io_wait
  ready_waits port adv m =
      let n1 = (ports.inb (port + ata_reg_altstatus) m).1 in
      let n2 = (ports.inb (port + ata_reg_altstatus) n1).1 in
      let n3 = (ports.inb (port + ata_reg_altstatus) n2).1 in
      let n4 = (ports.inb (port + ata_reg_altstatus) n3).1 in
      let n5 = (ports.inb (port + ata_reg_status) n4).1 in
      let n6 = (ports.inb (port + ata_reg_status) n5).1 in
      let waited =
        drive.watched (port + ata_reg_status) n4
        ∙ drive.watched (port + ata_reg_altstatus) n3
        ∙ drive.watched (port + ata_reg_altstatus) n2
        ∙ drive.watched (port + ata_reg_altstatus) n1
        ∙ drive.watched (port + ata_reg_altstatus) m in
      elim adv
        as (λ b.
          (after : Machine) × (ata_wait ports fuel port b m ≡ ok (false, after))
          × (drive.next after ≡ drive.next m)) [
            | false ↦ (n5, rw (ready_wait fuel port n4 positive, ata_wait) refl, waited)
            | true ↦ (
              n6,
              rw (ready_wait fuel port n4 positive, ata_wait)
                  (rw (drive.sound (port + ata_reg_status) n5) (
                    rw (drive.whole (port + ata_reg_status) n5)
                      (rw (drive.ready (port + ata_reg_status) n5) refl))),
              drive.watched (port + ata_reg_status) n5 ∙ waited,
            )
          ]

  read_words-bytes_at :
      (n place : ℕ) (m : Machine)
      → drive.next m ≡ place
      → (read_words ports n (ata_create io type) m).0 ≡ bytes_at disk place (n * 2)
  unfolding read_words ata_create
  read_words-bytes_at zero place m h = refl
  read_words-bytes_at (suc n) place m h =
      let two : suc n * 2 ≡ suc (suc (n * 2)) = omega arith in
      let d = (ports.inw io m).0 in
      let word : d ≡ disk place + 256 * disk (place + 1) =
        drive.word m ∙ ap (λ (k : ℕ). disk k + 256 * disk (k + 1)) h in
      let low : d % 256 ≡ disk place = omega (arith, drive.byte place) in
      let high : d / 256 % 256 ≡ disk (place + 1) =
        omega (arith, drive.byte place, drive.byte (place + 1)) in
      let far : place + 2 ≡ place + 1 + 1 = omega arith in
      let rest : (read_words ports n (ata_create io type) (ports.inw io m).1).0
          ≡ bytes_at disk (place + 1 + 1) (n * 2) =
        read_words-bytes_at n (place + 1 + 1) (ports.inw io m).1
          (drive.moved m ∙ ap (λ (k : ℕ). k + 2) h ∙ far) in
      rw two (λ i. low i ∷ high i ∷ rest i)

  -- Reading a sector answers the bytes of the disk there, whatever came before.
  sector :
      (lba : ℕ) (m : Machine)
      → lba < 0x80_0000
      → (after : Machine) × (ata_read_sector_pio ports fuel (ata_create io type) lba m
          ≡ ok (some (bytes_at disk (lba * ata_block_size) ata_block_size), after))
  unfolding ata_read_sector_pio read_tries select_sector ata_create
  sector lba m h =
      let (idle, a, na) = ready_waits io false (ports.outb (io + ata_reg_control) 2 m) in
      let (fetched, b, nb) = ready_waits io true (command_read ports io lba idle) in
      let transferred = (read_words ports 256 (ata_create io type) fetched).1 in
      let (after, c, nc) = ready_waits io false transferred in
      (
        after,
        rw (a, read_tries)
            (rw b (
              rw c (
                ap (λ (bytes : List ℕ). ok (some bytes, after))
                  (read_words-bytes_at 256 (lba * 512) fetched
                    (nb ∙ drive.commanded lba idle (omega arith)))))),
      )

  read_sectors-step :
      (n lba : ℕ) (m next after : Machine) (bytes behind : List ℕ)
      → ata_read_sector_pio ports fuel (ata_create io type) lba m ≡ ok (some bytes, next)
      → read_sectors ports n fuel (ata_create io type) (add32 lba 1) next ≡ ok (some behind, after)
      → read_sectors ports (suc n) fuel (ata_create io type) lba m
        ≡ ok (some (bytes ++ behind), after)
  unfolding read_sectors
  read_sectors-step n lba m next after bytes behind first others =
      rw (first, read_sectors) (rw others refl)

  joined :
      (n lba : ℕ)
      → bytes_at disk (lba * ata_block_size) ata_block_size
          ++ bytes_at disk ((lba + 1) * ata_block_size) (n * ata_block_size)
        ≡ bytes_at disk (lba * ata_block_size) (suc n * ata_block_size)
  joined n lba =
      let j : (lba + 1) * ata_block_size ≡ lba * ata_block_size + ata_block_size = omega arith in
      let k : ata_block_size + n * ata_block_size ≡ suc n * ata_block_size = omega arith in
      ap
        (λ (k : ℕ).
          bytes_at disk (lba * ata_block_size) ata_block_size
          ++ bytes_at disk k (n * ata_block_size))
        j
      ∙ bytes_at-append disk (lba * ata_block_size) ata_block_size (n * ata_block_size)
      ∙ ap (bytes_at disk (lba * ata_block_size)) k

  read_sectors-bytes_at :
      (n lba : ℕ) (m : Machine)
      → lba + n ≤ 0x80_0000
      → (after : Machine) × (read_sectors ports n fuel (ata_create io type) lba m
          ≡ ok (some (bytes_at disk (lba * ata_block_size) (n * ata_block_size)), after))
  unfolding read_sectors
  read_sectors-bytes_at zero lba m h = (m, refl)
  read_sectors-bytes_at (suc n) lba m h =
      let (next, first) = sector lba m (omega arith) in
      let (after, others) = read_sectors-bytes_at n (lba + 1) next (omega arith) in
      let start : add32 lba 1 ≡ lba + 1 = omega arith in
      (
        after,
        read_sectors-step n lba m next after (bytes_at disk (lba * ata_block_size) ata_block_size)
              (bytes_at disk ((lba + 1) * ata_block_size) (n * ata_block_size)) first
              (rw start others)
            ∙ ap (λ (bytes : List ℕ). ok (some bytes, after)) (joined n lba),
      )

  -- AtaRead of a device that AtaCreate made, given memory and fuel for one status, on a drive in LBA
  -- mode that is always ready, and on a range that ends below 2 ^ 32, answers the bytes of the range in
  -- their order and leaves interrupts enabled.
  pub ata_read-bytes_at :
      (offset size : ℕ) (buf : List ℕ) (irq : Bool) (m : Machine)
      → offset + size < u32_mod
      → (after : Machine) × (ata_read ports fuel true (ata_create io type) offset size buf irq m
          ≡ ok (some (bytes_at disk offset size), true, after))
  unfolding ata_read
  ata_read-bytes_at offset size buf irq m h =
      let first = offset / ata_block_size in
      let n = (offset + size) / ata_block_size + 1 - first in
      let (after, all) = read_sectors-bytes_at n first m (omega arith) in
      let sum : add32 offset size ≡ offset + size = omega arith in
      let place : first * ata_block_size + offset % ata_block_size ≡ offset = omega arith in
      let cut : take size (
            drop (offset % ata_block_size)
              (bytes_at disk (first * ata_block_size) (n * ata_block_size)))
          ≡ bytes_at disk offset size =
        ap (take size) (
          drop-bytes_at disk (first * ata_block_size) (n * ata_block_size) (offset % ata_block_size)
            (omega arith))
        ∙ take-bytes_at disk (first * ata_block_size + offset % ata_block_size)
            (n * ata_block_size - offset % ata_block_size) size (omega arith)
        ∙ ap (λ (k : ℕ). bytes_at disk k size) place in
      (
        after,
        rw (sum, ata_read) (rw all (ap (λ (bytes : List ℕ). ok (some bytes, true, after)) cut)),
      )

-- AtaRead on a machine, as Ext2.cpp calls it: what the buffer holds afterwards.
abbrev pub reader_of : (ports : Ports) → (fuel io type : ℕ) → ports.Machine → Reader
reader_of ports fuel io type m offset size buf =
    elim (ata_read ports fuel true (ata_create io type) offset size buf true m) [
      | ok (bytes, irq, after) ↦ bytes
      | err status ↦ none
      | fault ↦ none
      | running ↦ none
    ]

-- On such a drive it reads what Ext2.cpp relies on.
pub reader_of-IsReader :
    (ports : Ports) (fuel io type : ℕ) (m : ports.Machine) (disk : ℕ → ℕ)
    → 0 < fuel
    → IsDrive ports io disk
    → IsReader disk (reader_of ports fuel io type m)
reader_of-IsReader ports fuel io type m disk positive drive = record {
  reads = λ offset size buf h.
      let (after, e) =
        ata_read-bytes_at ports fuel io type positive disk drive offset size buf true m h in
      rw (e, reader_of) refl;
}

module _ (ports : Ports) (fuel : ℕ) (device : AtaDevice) where
  open ports use {Machine}

  -- Every status that the drive shows has the error bit, and it is never busy.
  pub record IsBroken : Type 0 where
    pub idle : (port : ℕ) (m : Machine) → is_busy (ports.inb port m).0 ≡ false
    pub error : (port : ℕ) (m : Machine) → has_error (ports.inb port m).0 ≡ true

  module _ (broken : IsBroken) (positive : 0 < fuel) where
    ata_status_wait-ends :
        (rounds io : ℕ) (m : Machine)
        → 0 < rounds
        → ata_status_wait ports rounds io m ≡ ok (ports.inb (io + ata_reg_status) m)
    unfolding ata_status_wait
    ata_status_wait-ends zero io m h = absurd (omega arith)
    ata_status_wait-ends (suc rounds) io m h =
        rw (broken.idle (io + ata_reg_status) m, ata_status_wait) refl

    ata_wait-plain :
        (io : ℕ) (m : Machine)
        → (after : Machine) × (ata_wait ports fuel io false m ≡ ok (false, after))
    unfolding ata_wait
    ata_wait-plain io m =
        let waited = ata_io_wait ports io m in
        (
          (ports.inb (io + ata_reg_status) waited).1,
          rw (ata_status_wait-ends fuel io waited positive, ata_wait) refl,
        )

    ata_wait-wrong :
        (io : ℕ) (m : Machine)
        → (after : Machine) × (ata_wait ports fuel io true m ≡ ok (true, after))
    unfolding ata_wait
    ata_wait-wrong io m =
        let waited = ata_io_wait ports io m in
        let idle = (ports.inb (io + ata_reg_status) waited).1 in
        (
          (ports.inb (io + ata_reg_status) idle).1,
          rw (ata_status_wait-ends fuel io waited positive, ata_wait)
              (rw (broken.error (io + ata_reg_status) idle) refl),
        )

    read_tries-none :
        (tries lba : ℕ) (m : Machine)
        → (after : Machine) × (read_tries ports tries fuel device lba m ≡ ok (none, after))
    unfolding read_tries
    read_tries-none zero lba m = (m, refl)
    read_tries-none (suc tries) lba m =
        let (idle, a) =
          ata_wait-plain device.data_port (ports.outb (device.data_port + ata_reg_control) 2 m) in
        let (wrong, b) =
          ata_wait-wrong device.data_port (select_sector ports device ata_cmd_read_pio lba idle) in
        let (after, c) = read_tries-none tries lba wrong in (after, rw (a, read_tries) (rw b c))

    read_sectors-none :
        (n lba : ℕ) (m : Machine)
        → (after : Machine) × (read_sectors ports (suc n) fuel device lba m ≡ ok (none, after))
    unfolding read_sectors
    read_sectors-none n lba m =
        let (after, e) = read_tries-none 5 lba m in
        (after, rw (e, read_sectors, ata_read_sector_pio) refl)

    -- AtaRead, given memory and fuel for one status, on a drive that shows an error at every status ends
    -- with -EIO, and leaves interrupts disabled.
    pub ata_read_broken :
        (offset size : ℕ) (buf : List ℕ) (irq : Bool) (m : Machine)
        → offset + size < u32_mod
        → (after : Machine) × (ata_read ports fuel true device offset size buf irq m
            ≡ ok (none, false, after))
    unfolding ata_read
    ata_read_broken offset size buf irq m h =
        let first = offset / ata_block_size in
        let (after, e) = read_sectors-none ((offset + size) / ata_block_size - first) first m in
        let n : add32 offset size / ata_block_size + 1 - first
            ≡ suc ((offset + size) / ata_block_size - first) =
          omega arith in
        (after, rw (n, ata_read) (rw e refl))
