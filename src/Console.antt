-- ===== src/Console.antt =====
-- scripts/hooks/completion-console.sh, which sets up the serial console in the image, and the
-- texts that it, scripts/hooks/download-apt-setup.sh and scripts/hooks/download-fstab.sh write with
-- `cat << EOF`, in which the shell expands parameters and commands. What the host's environment holds, and what its commands print,
-- is a parameter.
pub mod Terminals
pub mod Expansion
use chronos_updates.Common.{
  ℕ, Bool, true, false, ◌&&◌, ◌||◌, List, [], ◌∷◌, ◌++◌, ◌==◌, leb, any, codes, if◌then◌else◌,
}
use chronos_updates.Network.{starts_with}

-- The values of the variables, and what a command prints, without the line breaks at its end.
pub record Host : Type 0 where
  pub variable : List ℕ → List ℕ
  pub output : List ℕ → List ℕ

-- Where the shell is in the text of a here-document: after a dollar, in a name, in a name in braces,
-- in a command, after a backslash.
pub data Mode : Type 0 where
  plain dollar escape : Mode
  name braced command : List ℕ → Mode

abbrev name_char : ℕ → Bool
name_char c =
    (leb b'a' c && leb c b'z')
    || ((leb b'A' c && leb c b'Z') || ((leb b'0' c && leb c b'9') || c == b'_'))

abbrev pub plain_step : ℕ → List ℕ × Mode
plain_step c =
    if c == b'$'
    then ([], dollar)
    else if c == b'`'
    then ([], command [])
    else if c == b'\\'
    then ([], escape)
    else (c ∷ [], plain)

-- What a character adds to the text, and where the shell is then. A digit after the dollar is a
-- parameter of its own, and a line break after a backslash is taken away.
abbrev pub step : Host → Mode → ℕ → List ℕ × Mode
step h plain c = plain_step c
step h dollar c =
    if c == b'{'
    then ([], braced [])
    else if leb b'0' c && leb c b'9'
    then (h.variable (c ∷ []), plain)
    else if name_char c
    then ([], name (c ∷ []))
    else (b'$' ∷ (plain_step c).0, (plain_step c).1)
step h (name n) c =
    if name_char c
    then ([], name (n ++ (c ∷ [])))
    else (h.variable n ++ (plain_step c).0, (plain_step c).1)
step h (braced n) c = if c == b'}' then (h.variable n, plain) else ([], braced (n ++ (c ∷ [])))
step h (command n) c = if c == b'`' then (h.output n, plain) else ([], command (n ++ (c ∷ [])))
step h escape c =
    if c == b'\n'
    then ([], plain)
    else if c == b'$' || (c == b'`' || c == b'\\')
    then (c ∷ [], plain)
    else (b'\\' ∷ c ∷ [], plain)

-- What is pending at the end of the text.
abbrev finish : Host → Mode → List ℕ
finish h dollar = b'$' ∷ []
finish h (name n) = h.variable n
finish h escape = b'\\' ∷ []
finish h _ = []

-- A here-document whose delimiter is not quoted.
pub expand : Host → Mode → List ℕ → List ℕ
expand h m [] = finish h m
expand h m (c ∷ cs) = (step h m c).0 ++ expand h (step h m c).1 cs

-- What the hook appends to /root/.bashrc, as it stands in the hook and as it is written.
abbrev bashrc_source : List ℕ
bashrc_source =
    codes "export LS_OPTIONS='--color=auto'\neval \"`dircolors`\"\nalias ls='ls $LS_OPTIONS'\n"

pub bashrc : Host → List ℕ
bashrc h = expand h plain bashrc_source

-- The three texts of download-apt-setup.sh: of sources.list.d the lists krontech-debian.list and
-- backports-debian.list, and of apt.conf.d the file 80backport-keys.
pub record AptFiles : Type 0 where
  pub debian_list : List ℕ
  pub backports_list : List ℕ
  pub backport_keys : List ℕ

abbrev pub backports_source : List ℕ
backports_source =
    codes
      "deb [arch=armel] http://archive.debian.org/debian jessie-backports main contrib non-free\n"

abbrev backport_keys_source : List ℕ
backport_keys_source =
    codes
      "# Disable key validity time to enable jessie-backports\nAcquire::Check-Valid-Until \"false\";\n"

pub apt_hook : Host → AptFiles
apt_hook h = record {
  debian_list = expand h plain (codes "deb http://debian.krontech.ca/apt/debian/ ${SUITE} main\n");
  backports_list = expand h plain backports_source;
  backport_keys = expand h plain backport_keys_source;
}

-- /etc/fstab of download-fstab.sh.
abbrev pub fstab_source : List ℕ
fstab_source =
    codes "# <filesystem>  <mount point>   <type>  <options>           <dump/pass>\n"
    ++ (codes "rootfs          /               auto    defaults            1  1\n"
        ++ (codes "/dev/mmcblk0p1  /boot/uboot     vfat    defaults            0  0\n"
            ++ (codes "proc            /proc           proc    defaults            0  0\n"
                ++ (codes "devpts          /dev/pts        devpts  mode=0620,gid=5     0  0\n"
                    ++ (codes "usbfs           /proc/bus/usb   usbfs   defaults            0  0\n"
                        ++ (codes
                              "tmpfs           /var/volatile   tmpfs   defaults,size=16M   0  0\n"
                            ++ (codes
                                  "tmpfs           /dev/shm        tmpfs   mode=0777           0  0\n"
                                ++ (codes
                                    "tmpfs           /media/ram      tmpfs   defaults,size=16M   0  0\n"))))))))

pub fstab : Host → List ℕ
fstab h = expand h plain fstab_source

-- A text has another in it.
unfoldable pub contains : List ℕ → List ℕ → Bool
contains p [] = starts_with p []
contains p (c ∷ cs) = starts_with p (c ∷ cs) || contains p cs

-- `sed '/ttyO3/a ttyO4\nttyO5'`, on the lines of /etc/securetty.
pub add_terminals : List (List ℕ) → List (List ℕ)
add_terminals [] = []
add_terminals (l ∷ ls) =
    let rest = add_terminals ls in
    if contains (codes "ttyO3") l then l ∷ codes "ttyO4" ∷ codes "ttyO5" ∷ rest else l ∷ rest

-- What the hook appends to /etc/inittab.
abbrev pub getty_line : List ℕ
getty_line = codes "S:2345:respawn:/sbin/getty -L ttyO4 115200 vt100"

-- The files that the hook of the console changes.
pub record ConsoleFiles : Type 0 where
  pub inittab : List (List ℕ)
  pub securetty : List (List ℕ)
  pub root_bashrc : List ℕ

-- completion-console.sh.
pub console_hook : Host → ConsoleFiles → ConsoleFiles
console_hook h s = record {
  inittab = s.inittab ++ (getty_line ∷ []);
  securetty = add_terminals s.securetty;
  root_bashrc = s.root_bashrc ++ bashrc h;
}
