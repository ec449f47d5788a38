-- ===== src/Lib.antt =====
-- A model of krontech/chronos-updates: the update and SD card scripts of the Chronos cameras, and
-- the C interfaces that the root file system ships for the camera's programs.
--
-- The scripts. An update is a drive with update_real.sh on it, which replaces the system in place
-- (Update), or with update-to-debian/update_backend.sh, which a user interface drives over a pipe
-- and which writes a Debian image to the card in the top slot (Backend). That image is made by
-- scripts/chronos-mkimage.sh (Image), which calls scripts/chronos-debootstrap.sh (Bootstrap) to
-- install the system; a card on the desk is made by scripts/mksd-format.sh and
-- scripts/mksd-rootfs.sh (Formatting). A script is a function from what it finds (files present,
-- the output of a program, the answers of a loop's test) to the list of what it does, or, where it
-- is about files, to its exit status and the files that it leaves.
--   Update.antt      `update` is update_real.sh; `bad_sums` its checksum test, `wait_for_app` its
--                    loop on camApp, `install` what follows; Update/ has its theorems.
--   Backend.antt     `backend` is update_backend.sh; `await_start`, `await_writer` and
--                    `await_power_down` are its three loops; Backend/ has its theorems, with a
--                    protocol of phases that its runs keep to (Protocol, Order, Ending).
--   Image.antt       `mkimage` and `build` are chronos-mkimage.sh; Image/ has its theorems, on the
--                    partitions of the assembled image and on the temporary files.
--   Bootstrap.antt   `bootstrap` is chronos-debootstrap.sh and `get_options` its loop over getopts;
--                    `with_bootstrap` puts it into chronos-mkimage.sh.
--   Hooks.antt       `hook` is scripts/hooks/completion-dpkg-configure.sh, run by multistrap.
--   Hooks/Chroot.antt
--                    `chroot` is scripts/chronos-chroot.sh.
--   Console.antt     `console_hook` is scripts/hooks/completion-console.sh, `apt_hook` and `fstab`
--                    the hooks download-apt-setup.sh and download-fstab.sh beside it, and `expand`
--                    what the shell makes of the texts in them.
--   Deploy.antt      The image on the card: Image and Backend composed, over a parameter for dd.
--   Formatting.antt  `mksd_format` and `mksd_rootfs` are the scripts of these names.
--   Packaging.antt   The checksums that the Makefile writes and update_real.sh has checked.
--   Packaging/Making.antt
--                    `zip_rule` and `debian` are the rules of the Makefile that make a package.
--   Imaging.antt     `mksd_image` and `mksd_loopdev` are scripts/mksd-image.sh and
--                    scripts/mksd-loopdev.sh, which make a card's image in a file.
--   Update/Boot.antt What the installer makes of the links of the init scripts, over update-rc.d.
--   Hardware.antt    `hwsetup` is scripts/hwsetup.sh and `vidorder` rootfs/etc/init.d/vidorder: the
--                    pins and the display that they set up, and the wait for the screen.
--   Hardware/Firmware.antt
--                    `load_hd_firmware` is rootfs/etc/init.d/load-hd-firmware.sh, which runs before
--                    vidorder. Hardware/Board.antt has the pins of rootfs/etc/cam-board.json.
--   UsbNetwork.antt  `networking_hook` (in UsbNetwork/Files.antt) is
--                    scripts/hooks/download-networking.sh, run by multistrap, with the addresses
--                    that it sets up and the logins that it permits.
--   Camera.antt      `run_camera` is rootfs/opt/camera/runCamera.sh and `camera_script`
--                    rootfs/etc/init.d/camera; Camera/Splash.antt puts the first on one clock with
--                    update_real.sh, in milliseconds of sleep.
--   Network.antt     `networking` is rootfs/etc/init.d/networking; `doopt` its options.
--
-- The C interfaces.
--   DBus/Client.antt and DBus/Wrappers/ are the client wrappers that dbus-binding-tool made
--     (rootfs/usr/include/dbus-1.0/dbus/dbus-glib-bindings.h): each method in its three forms, as
--     functions on a session, which is the state of the bus and the store of slices. DBus/Glib.antt
--     has the calling convention of dbus-glib's variadic functions and the parameter `DBusGlib`.
--     DBus/Requests.antt puts the sixteen methods in one type; DBus/Requests/ has the theorems.
--   DBus/Protocol/ has the constants of rootfs/usr/include/dbus-1.0/dbus/dbus-protocol.h: type codes,
--     limits, headers, and error names with `DBusGError` of dbus-glib.h.
--   Jpeg/Messages.antt is the message list of rootfs/usr/include/jerror.h, Jpeg/Report.antt its
--     reporting macros over the error manager of rootfs/usr/include/jpeglib.h, and Jpeg/Structs.antt
--     the layout of the structs of jpeglib.h, over the C layout rules of Abi.antt.
--   Jpeg/Config.antt has the basic types of rootfs/usr/include/jmorecfg.h, with the macros that read
--     them, in every configuration and on every machine with the widths that C asks for.
--   Omx.antt has the enumerations and the parameter structs of the video capture component
--     (rootfs/usr/include/omx/omx_vfcc.h), over the rules of C for values and layouts.
--   Common.antt has the shared names; Checks/ runs the theorems on concrete inputs.
--
-- Bounds and fuel. Sizes are numbers of bytes or of sectors of 512 bytes, without a bound. The
-- loops of the scripts that wait for a process or a device are on fuel: what ends or appears after
-- m rounds needs more than m of it, and the theorems say that this is enough. Layouts are those of the
-- 32-bit ARM procedure call standard, with pointers, enumerations and int of four bytes; a
-- parameter of a message is stored modulo 2 ^ 32.
--
-- Parameters. The programs that the scripts run (sfdisk, mkfs, the packers, multistrap, dd) are
-- records with what their documentation says: formatting and installing keep a file system's size,
-- multistrap installs where it is told to, packed files one after the other unpack one after the
-- other, gzip and bzip2 refuse names that they are given with a suffix of their own (which these
-- are is a parameter), dd writes a file to the start of a card, sfdisk may print no size of a card,
-- md5sum checks file by file what it has listed, update-rc.d makes links only for a service that
-- has none, and a star in a pattern of sshd stands for any text. libdbus-glib is a record that says
-- that a blocking call is a call that is begun and ended; what a call that fails leaves in the
-- caller's variables is its own. The versions of jversion.h are two texts, and the types of the OMX
-- core are sizes and alignments.
--
-- Not modelled: the bodies of libdbus, libjpeg, the OMX components and tslib, which the repository
-- has no source of, and the rest of their headers; the init scripts that only call programs, udev's
-- helpers; kernel modules, firmware and pictures; what a script prints for the reader of its log.
pub mod Common
pub mod Abi
pub mod DBus
pub mod Jpeg
pub mod Omx
pub mod Image
pub mod Update
pub mod Backend
pub mod Formatting
pub mod Bootstrap
pub mod Hooks
pub mod Deploy
pub mod Packaging
pub mod Imaging
pub mod Hardware
pub mod Network
pub mod UsbNetwork
pub mod Camera
pub mod Console
pub mod Checks
