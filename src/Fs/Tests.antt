-- ===== src/Fs/Tests.antt =====
-- The theorems on files at a drive with clusters of two sectors.
use omocha_os.Base.{ℕ, ◌+◌, ◌*◌, ◌≡◌, ◌%◌, inr, ◌==◌, ◌&&◌, if◌then◌else◌, arith}
use omocha_os.Base.Bytes.{bytes}
use omocha_os.Core.Run.{ok}
use omocha_os.Fs.Disk.{FileSystem, FileInfo, file_byte}
use omocha_os.Fs.File.{read_file}
use omocha_os.Fs.Contents.{read_file-bytes}

-- Sector 1 is the file allocation table, where cluster 2 is followed by cluster 5.
abbrev drive : ℕ → ℕ → ℕ
drive lba i = if (lba == 1) && (i == 8) then 5 else (lba * 7 + i) % 256

abbrev system : FileSystem
system = record { sec_per_clus = 2; fat_start_sct = 1; root_clus = 2; first_data_clus = 3 }

abbrev info : FileInfo
info = record { size = 1500; clus = 2 }

read_file-bytes_example :
    read_file drive system 4 info 100 1300 ≡ ok (bytes (file_byte drive system 2) 100 1300, 1300)
read_file-bytes_example =
    read_file-bytes drive system 4 info 100 1300 (omega arith) (omega arith) (omega arith)
      (omega arith) (omega arith) (omega arith) (inr (omega arith))
