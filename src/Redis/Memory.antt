-- ===== src/Redis/Memory.antt =====
-- A Redis server that is its own view.
use hyprbot.Prelude.{refl, [], none}
use hyprbot.Redis.Commands
use hyprbot.Redis.Commands.{View}
use hyprbot.Redis.{Redis, IsLawful}

abbrev pub memory : Redis
memory = record {
  State = View;
  view = λ v. v;
  get = Commands.get;
  set = Commands.set;
  set_nx = Commands.set_nx;
  del = Commands.del;
  incr = Commands.incr;
  expire = Commands.expire;
  xgroup_create = Commands.xgroup_create;
  xadd = Commands.xadd;
  xreadgroup = Commands.xreadgroup;
  xack = Commands.xack;
  xdel = Commands.xdel;
}

pub memory-IsLawful : IsLawful memory
memory-IsLawful = record {
  get-view = λ s now k. refl;
  view-set = λ s now k v ttl. refl;
  view-set_nx = λ s now k v ttl. refl;
  answer-set_nx = λ s now k v ttl. refl;
  view-del = λ s k. refl;
  view-incr = λ s now k. refl;
  answer-incr = λ s now k. refl;
  view-expire = λ s now k ttl. refl;
  view-xgroup_create = λ s. refl;
  answer-xgroup_create = λ s. refl;
  view-xadd = λ s p. refl;
  view-xreadgroup = λ s n. refl;
  answer-xreadgroup = λ s n. refl;
  view-xack = λ s i. refl;
  view-xdel = λ s i. refl;
}

abbrev pub empty_server : View
empty_server = record { cells = λ k. none; entries = []; last_id = 0; group = none }
