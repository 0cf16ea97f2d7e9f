-- ===== src/TransferPaths/Tests.antt =====
-- The normalisation of paths at work, and its theorem at a concrete input.
use enhanced_ssh.Prelude.{[], ◌∷◌, some, false, any, ◌≡◌, refl, codes}
use enhanced_ssh.Result.{ok, err}
use enhanced_ssh.TransferPaths.{
  validate_path_text, byte_length, split, drop_empty, segments, join, render, is_traversal,
  is_posix_absolute, normalize_posix_path, invalid_path, quote_sftp_batch_path, escape,
}
use enhanced_ssh.TransferPaths.Canonical.{normalize_posix_path-canonical}
use enhanced_ssh.TransferPaths.Quoting.{read_word, read_word-quote_sftp_batch_path}
use enhanced_ssh.RemoteCommand.Validate.{same_text}
use enhanced_ssh.TransferPaths.Windows.{
  is_network_path, drive_of, before_dot, ends_badly, is_device_name, validate_windows_segment,
  check_segments, normalize_on_drive, normalize_windows_path, OnDrive,
  normalize_windows_path-OnDrive,
}
use enhanced_ssh.TransferPaths.Segments.{normalize_posix_path-segments}

run_paths : Unit {0}
unfolding validate_path_text byte_length split drop_empty segments join render is_traversal
    is_posix_absolute normalize_posix_path
run_paths = tt

-- The path has a doubled slash and one at its end.
accepted : normalize_posix_path (codes "/srv//www/") ≡ ok (codes "/srv/www")
unfolding run_paths
accepted = refl

path_tests :
    (normalize_posix_path (codes "/srv/../etc")
      ≡ err (invalid_path "Remote path must not contain traversal segments"))
    × (normalize_posix_path (codes "/") ≡ ok (codes "/"))
    × (normalize_posix_path (codes "//host/share")
        ≡ err (invalid_path "Remote POSIX paths must be absolute"))
unfolding run_paths
path_tests = (refl, refl, refl)

normalize_posix_path-segments_example :
    (segments (codes "/srv/www") ≡ segments (codes "/srv//www/"))
    × (any is_traversal (segments (codes "/srv/www")) ≡ false)
normalize_posix_path-segments_example =
    normalize_posix_path-segments (codes "/srv//www/") (codes "/srv/www") accepted

normalize_posix_path-canonical_example :
    normalize_posix_path (codes "/srv/www") ≡ ok (codes "/srv/www")
normalize_posix_path-canonical_example =
    normalize_posix_path-canonical (codes "/srv//www/") (codes "/srv/www") accepted

run_quoting : Unit {0}
unfolding quote_sftp_batch_path escape validate_path_text byte_length
run_quoting = tt

-- The path a"b* is quoted as "a\"b\*".
quoted :
    quote_sftp_batch_path (97 ∷ 34 ∷ 98 ∷ 42 ∷ []) ≡ ok (34 ∷ 97 ∷ 92 ∷ 34 ∷ 98 ∷ 92 ∷ 42 ∷ 34 ∷ [])
unfolding run_quoting
quoted = refl

read_word-quote_sftp_batch_path_example :
    read_word (34 ∷ 97 ∷ 92 ∷ 34 ∷ 98 ∷ 92 ∷ 42 ∷ 34 ∷ 32 ∷ [])
    ≡ some (97 ∷ 34 ∷ 98 ∷ 42 ∷ [], 32 ∷ [])
read_word-quote_sftp_batch_path_example =
    read_word-quote_sftp_batch_path (97 ∷ 34 ∷ 98 ∷ 42 ∷ [])
      (34 ∷ 97 ∷ 92 ∷ 34 ∷ 98 ∷ 92 ∷ 42 ∷ 34 ∷ []) (32 ∷ []) quoted

run_windows : Unit {0}
unfolding same_text is_network_path drive_of before_dot ends_badly is_device_name
    validate_windows_segment check_segments normalize_on_drive normalize_windows_path
run_windows = tt

-- Both separators are taken, and the drive is put into upper case.
windows_accepted : normalize_windows_path (codes "c:\\srv//www\\") ≡ ok (codes "C:/srv/www")
unfolding run_windows validate_path_text byte_length split drop_empty segments join render
    is_traversal
windows_accepted = refl

windows_tests :
    (normalize_windows_path (codes "c:/srv/nul.txt")
      ≡ err (invalid_path "Windows path contains a reserved device name"))
    × (normalize_windows_path (codes "c:/srv/file:stream")
        ≡ err (invalid_path "Windows path contains an invalid segment"))
    × (normalize_windows_path (codes "//host/share")
        ≡ err (invalid_path "Remote Windows paths must not use UNC or device syntax"))
    × (normalize_windows_path (codes "srv")
        ≡ err (invalid_path "Remote Windows paths must be drive-absolute"))
unfolding run_windows validate_path_text byte_length split drop_empty segments join render
    is_traversal
windows_tests = (refl, refl, refl, refl)

normalize_windows_path-OnDrive_example : OnDrive (codes "c:\\srv//www\\") (codes "C:/srv/www")
normalize_windows_path-OnDrive_example =
    normalize_windows_path-OnDrive (codes "c:\\srv//www\\") (codes "C:/srv/www") windows_accepted
